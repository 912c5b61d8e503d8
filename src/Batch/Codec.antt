-- ===== src/Batch/Codec.antt =====
-- Decoding what `encode_operations` wrote.
use beachdb.Prelude.{
  ℕ, ◌-◌, ◌^◌, ◌≡◌, refl, arith, List, [], ◌∷◌, ◌++◌, Bytes, append_assoc, append-nil, length, All,
  ok, ◌>>=◌, le→ltb-false, subst,
}
use beachdb.Coding.{put_uint32, IsU32, ByteReader, advance}
use beachdb.Coding.Unread.{Unread, Unread-new_byte_reader, advance-Unread, remaining-Unread}
use beachdb.Coding.Decoder.{◌>>=◌ as bind}
use beachdb.Coding.Decoder.Consumes.{
  Consumes, Consumes-pure, Consumes-lift, Consumes-reading, Consumes-bind, Consumes-read_byte,
  Consumes-read_uint32, Consumes-check, Consumes-read_bytes,
}
use beachdb.Batch.{
  OpType, op_put, op_delete, op_type_byte, Operation, encoding_version, truncated_batch,
  corrupt_batch, bad_version, encode_value, encode_operation, encode_all, encode_operations,
  decode_op_type, decode_value, decode_operation, decode_ops, decode_header, expect_end,
  decode_body, all_zero, decode_batch, result, ValueFits, IsEncodable,
}

decode_op_type-op_type_byte : (t : OpType) → decode_op_type (op_type_byte t) ≡ ok t
unfolding decode_op_type op_type_byte
decode_op_type-op_type_byte op_put = refl
decode_op_type-op_type_byte op_delete = refl

Consumes-decode_value :
    (t : OpType) (value : Bytes)
    → ValueFits t value
    → Consumes (decode_value t) (encode_value t value) value
unfolding decode_value encode_value
Consumes-decode_value op_put value fits =
    Consumes-bind _ _ (Consumes-reading truncated_batch (Consumes-read_uint32 (length value) fits))
      (Consumes-reading truncated_batch (Consumes-read_bytes value))
Consumes-decode_value op_delete value fits = rw fits (Consumes-pure [])

Consumes-decode_operation :
    (op : Operation) → IsEncodable op → Consumes decode_operation (encode_operation op) op
unfolding decode_operation encode_operation
Consumes-decode_operation op fits =
    subst
      (λ (bs : Bytes).
        Consumes decode_operation
          (op_type_byte op.op_type ∷ (put_uint32 (length op.key) ++ (op.key ++ bs))) op)
      (append-nil (encode_value op.op_type op.value))
      (Consumes-bind _ _
        (Consumes-reading corrupt_batch (Consumes-read_byte (op_type_byte op.op_type)))
        (Consumes-bind _ _ (Consumes-lift (decode_op_type-op_type_byte op.op_type)) (
          Consumes-bind _ _
            (Consumes-reading truncated_batch (Consumes-read_uint32 (length op.key) fits.key_fits))
            (Consumes-bind _ _ (Consumes-reading truncated_batch (Consumes-read_bytes op.key)) (
              Consumes-bind _ _ (Consumes-decode_value op.op_type op.value fits.value_fits)
                (Consumes-pure op))))))

Consumes-decode_ops :
    (ops done : List Operation)
    → All IsEncodable ops
    → Consumes (decode_ops (length ops) done) (encode_all ops) (done ++ ops)
unfolding decode_ops encode_all
Consumes-decode_ops [] done fits = rw (append-nil done) (Consumes-pure done)
Consumes-decode_ops (op ∷ ops) done (fit, fits) =
    subst
      (λ (all : List Operation).
        Consumes (decode_ops (length (op ∷ ops)) done) (encode_operation op ++ encode_all ops) all)
      (append_assoc done (op ∷ []) ops)
      (Consumes-bind _ (λ o. decode_ops (length ops) (done ++ (o ∷ [])))
        (Consumes-decode_operation op fit) (Consumes-decode_ops ops (done ++ (op ∷ [])) fits))

Consumes-decode_header :
    (n : ℕ) → IsU32 n → Consumes decode_header (encoding_version ∷ (0 ∷ 0 ∷ 0 ∷ put_uint32 n)) n
unfolding decode_header all_zero
Consumes-decode_header n small =
    Consumes-bind _ _ (Consumes-reading corrupt_batch (Consumes-read_byte encoding_version)) (
      Consumes-check bad_version refl (
        Consumes-bind _ _ (Consumes-reading corrupt_batch (Consumes-read_bytes (0 ∷ 0 ∷ 0 ∷ []))) (
          Consumes-check corrupt_batch refl
            (Consumes-reading corrupt_batch (Consumes-read_uint32 n small)))))

encode_operations_ok :
    (ops : List Operation)
    → IsU32 (length ops)
    → encode_operations ops
      ≡ ok ((encoding_version ∷ (0 ∷ 0 ∷ 0 ∷ put_uint32 (length ops))) ++ encode_all ops)
unfolding encode_operations
encode_operations_ok ops few = rw (le→ltb-false (2 ^ 32 - 1) (length ops) (omega arith))

decode_body_lem :
    (ops : List Operation) (r : ByteReader)
    → IsU32 (length ops)
    → All IsEncodable ops
    → Unread r ((encoding_version ∷ (0 ∷ 0 ∷ 0 ∷ put_uint32 (length ops))) ++ encode_all ops)
    → result (decode_body r) ≡ ok (record { ops = ops })
unfolding decode_body expect_end
decode_body_lem ops r few fits h =
    let header = encoding_version ∷ (0 ∷ 0 ∷ 0 ∷ put_uint32 (length ops)) in
    let h' = advance-Unread header (encode_all ops) r h in
    let r' = advance (length header) r in
    let h'' : Unread r' (encode_all ops ++ []) = rw (append-nil (encode_all ops)) h' in
    rw
      (
        (Consumes-decode_header (length ops) few).at r (encode_all ops) h,
        bind,
        (Consumes-decode_ops ops [] fits).at r' [] h'',
        remaining-Unread (advance-Unread (encode_all ops) [] r' h''),
      )
      refl

-- Operations that are encoded and decoded are the same operations, if there are fewer than 2^32,
-- keys and values are shorter than 2^32 bytes, and a delete has no value.
pub decode_batch-encode_operations :
    (ops : List Operation)
    → IsU32 (length ops)
    → All IsEncodable ops
    → (encode_operations ops >>= decode_batch) ≡ ok (record { ops = ops })
unfolding decode_batch
decode_batch-encode_operations ops few fits =
    rw (encode_operations_ok ops few) (decode_body_lem ops _ few fits (Unread-new_byte_reader _))
