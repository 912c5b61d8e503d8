-- ===== src/Batch/Tests.antt =====
-- Concrete batches, and the theorems at concrete inputs.
use beachdb.Prelude.{◌≡◌, refl, arith, List, [], ◌∷◌, Bytes, ok, err, ◌>>=◌, Safe, All}
use beachdb.Coding.{
  put_uint32, uint32, read_byte, read_bytes, read_uint32, remaining, new_byte_reader,
}
use beachdb.Batch.{
  Operation, op_put, op_delete, op_type_byte, corrupt_batch, encode_operations, encode_all,
  encode_operation, encode_value, decode_batch, decode_op_type, IsEncodable,
}
use beachdb.Batch.Codec.{decode_batch-encode_operations}
use beachdb.Batch.Total.{decode_batch-Safe, IsWellFormed}

abbrev two_operations : List Operation
two_operations =
    record { op_type = op_put; key = 0x6b ∷ []; value = 0x76 ∷ 0x77 ∷ [] }
    ∷ record { op_type = op_delete; key = 0x6b ∷ []; value = [] }
    ∷ []

abbrev two_bytes : Bytes
two_bytes =
    1 ∷ 0 ∷ 0 ∷ 0 ∷ 0 ∷ 0 ∷ 0 ∷ 2 ∷ 1 ∷ 0 ∷ 0 ∷ 0 ∷ 1 ∷ 0x6b ∷ 0 ∷ 0 ∷ 0 ∷ 2 ∷ 0x76 ∷ 0x77 ∷ 2 ∷ 0
    ∷ 0 ∷ 0 ∷ 1 ∷ 0x6b ∷ []

encode_two : encode_operations two_operations ≡ ok two_bytes
unfolding encode_operations encode_all encode_operation encode_value op_type_byte put_uint32
encode_two = refl

decode_two : decode_batch two_bytes ≡ ok (record { ops = two_operations })
unfolding decode_batch decode_op_type op_type_byte uint32 read_byte read_bytes read_uint32 remaining
    new_byte_reader
decode_two = refl

decode_trailing : decode_batch (1 ∷ 0 ∷ 0 ∷ 0 ∷ 0 ∷ 0 ∷ 0 ∷ 0 ∷ 9 ∷ []) ≡ err corrupt_batch
unfolding decode_batch decode_op_type op_type_byte uint32 read_byte read_bytes read_uint32 remaining
    new_byte_reader
decode_trailing = refl

two_operations-IsEncodable : All IsEncodable two_operations
two_operations-IsEncodable = (
  record { key_fits = omega arith; value_fits = omega arith },
  (record { key_fits = omega arith; value_fits = refl }, tt),
)

decode_batch-encode_operations_example :
    (encode_operations two_operations >>= decode_batch) ≡ ok (record { ops = two_operations })
decode_batch-encode_operations_example =
    decode_batch-encode_operations two_operations (omega arith) two_operations-IsEncodable

decode_batch-Safe_example : Safe (λ b. All IsWellFormed b.ops) (decode_batch (1 ∷ 0 ∷ 0 ∷ 7 ∷ []))
decode_batch-Safe_example = decode_batch-Safe (1 ∷ 0 ∷ 0 ∷ 7 ∷ [])
