-- ===== src/Batch.antt =====
-- engine/batch.go: the batch of operations, its encoding and its decoding. The batch's lock is left
-- out: every method holds it for its whole body.
pub mod Codec
pub mod Total
mod Tests
use beachdb.Prelude.{
  ℕ, zero, suc, ◌+◌, ◌-◌, ◌^◌, ◌≡◌, Bool, true, false, List, [], ◌∷◌, ◌++◌, Bytes, length, All,
}
use beachdb.Prelude.{Result, ok, err, panic, ltb, ◌==◌, if◌then◌else◌, not}
use beachdb.Coding.{
  put_uint32, IsU32, new_byte_reader, remaining, read_byte, read_bytes, read_uint32, ByteReader,
}
use beachdb.Coding.Decoder.{Decoder, pure, lift, fail_if, reading, ◌>>=◌, ◌>>◌}

pub data OpType : Type 0 where
  op_put op_delete : OpType

-- `iota + 1`
unfoldable pub op_type_byte : OpType → ℕ
op_type_byte op_put = 1
op_type_byte op_delete = 2

-- A slice's contents; a delete carries no value.
pub record Operation : Type 0 where
  pub op_type : OpType
  pub key : Bytes
  pub value : Bytes

pub record Batch : Type 0 where
  pub ops : List Operation

unfoldable pub new_batch : Batch
new_batch = record { ops = [] }

unfoldable pub put : Bytes → Bytes → Batch → Batch
put key value b = record {
  ops = b.ops ++ (record { op_type = op_put; key = key; value = value } ∷ []);
}

unfoldable pub delete : Bytes → Batch → Batch
delete key b = record {
  ops = b.ops ++ (record { op_type = op_delete; key = key; value = [] } ∷ []);
}

unfoldable pub count : Batch → ℕ
count b = length b.ops

unfoldable pub is_empty : Batch → Bool
is_empty b = count b == 0

unfoldable pub reset : Batch → Batch
reset b = record { ops = [] }

pub data BatchError : Type 0 where
  corrupt_batch bad_version unknown_op_type truncated_batch : BatchError

abbrev pub encoding_version : ℕ
encoding_version = 1

-- One round of the writing loop. `uint32(len(op.key))` keeps the low 32 bits, as `put_uint32` does.
unfoldable pub encode_value : OpType → Bytes → Bytes
encode_value op_put value = put_uint32 (length value) ++ value
encode_value op_delete value = []

unfoldable pub encode_operation : Operation → Bytes
encode_operation op =
    op_type_byte op.op_type
    ∷ (put_uint32 (length op.key) ++ (op.key ++ encode_value op.op_type op.value))

unfoldable pub encode_all : List Operation → Bytes
encode_all [] = []
encode_all (op ∷ ops) = encode_operation op ++ encode_all ops

-- The header, then every operation. More than `math.MaxUint32` operations panic.
unfoldable pub encode_operations : List Operation → Result BatchError Bytes
encode_operations ops =
    if ltb (2 ^ 32 - 1) (length ops)
    then panic
    else ok (encoding_version ∷ (0 ∷ 0 ∷ 0 ∷ (put_uint32 (length ops) ++ encode_all ops)))

unfoldable pub decode_op_type : ℕ → Result BatchError OpType
decode_op_type b =
    if b == op_type_byte op_put
    then ok op_put
    else if b == op_type_byte op_delete
    then ok op_delete
    else err unknown_op_type

decode_value : OpType → Decoder BatchError Bytes
decode_value op_put = do
  value_len ← reading read_uint32 truncated_batch
  reading (read_bytes value_len) truncated_batch
decode_value op_delete = pure []

decode_operation : Decoder BatchError Operation
decode_operation = do
  op_type_byte ← reading read_byte corrupt_batch
  op_type ← lift (decode_op_type op_type_byte)
  key_len ← reading read_uint32 truncated_batch
  key ← reading (read_bytes key_len) truncated_batch
  value ← decode_value op_type
  pure (record { op_type = op_type; key = key; value = value })

-- `for range opCount { batch.ops = append(batch.ops, *op) }`
decode_ops : ℕ → List Operation → Decoder BatchError (List Operation)
decode_ops zero ops = pure ops
decode_ops (suc op_count) ops = decode_operation >>= λ op. decode_ops op_count (ops ++ (op ∷ []))

-- `for _, b := range reserved { if b != 0 { return ErrCorruptBatch } }`
all_zero : Bytes → Bool
all_zero [] = true
all_zero (b ∷ bs) = if b == 0 then all_zero bs else false

decode_header : Decoder BatchError ℕ
unfolding all_zero
decode_header = do
  version ← reading read_byte corrupt_batch
  fail_if (not (version == encoding_version)) bad_version
  reserved ← reading (read_bytes 3) corrupt_batch
  fail_if (not (all_zero reserved)) corrupt_batch
  reading read_uint32 corrupt_batch

-- `if r.Remaining() != 0 { return ErrCorruptBatch }`
expect_end : List Operation → Decoder BatchError Batch
expect_end ops r = if remaining r == 0 then ok (record { ops = ops }, r) else err corrupt_batch

decode_body : Decoder BatchError Batch
decode_body = do op_count ← decode_header; ops ← decode_ops op_count []; expect_end ops

abbrev pub result : {A : Type 0} → Result BatchError (A × ByteReader) → Result BatchError A
result (ok (a, _)) = ok a
result (err e) = err e
result panic = panic

unfoldable pub decode_batch : Bytes → Result BatchError Batch
unfolding decode_body decode_header decode_ops decode_operation decode_value expect_end all_zero
decode_batch buf = result (decode_body (new_byte_reader buf))

-- Lengths that fit the format's 32-bit fields, and no value on a delete.
abbrev pub ValueFits : OpType → Bytes → Type 0
ValueFits op_put value = IsU32 (length value)
ValueFits op_delete value = value ≡ []

pub record IsEncodable (op : Operation) : Type 0 where
  pub key_fits : IsU32 (length op.key)
  pub value_fits : ValueFits op.op_type op.value
