-- ===== src/Batch/Total.antt =====
-- Decoding on any bytes at all.
use beachdb.Prelude.{
  ℕ, zero, suc, ◌+◌, ◌≡◌, refl, arith, List, [], ◌∷◌, ◌++◌, Bytes, All, length, Result, ok, err,
  panic, Safe, inl, inr, length-append, All-append, Bool-cases, ◌==◌, not,
}
use beachdb.Coding.{new_byte_reader, remaining, ByteReader}
use beachdb.Coding.Decoder.Sound.{
  Sound, After, Sound-pure, Sound-lift, Sound-mono, Sound-reading, Sound-check, Sound-bind,
  Sound-read_byte, Sound-read_uint32, Sound-read_bytes, Sound-weaken,
}
use beachdb.Batch.{
  OpType, op_put, op_delete, op_type_byte, Operation, Batch, BatchError, truncated_batch,
  corrupt_batch, bad_version, decode_op_type, decode_value, decode_operation, decode_ops,
  encoding_version, all_zero, decode_header, expect_end, decode_body, decode_batch, result,
}

-- A delete carries no value.
abbrev pub HasNoValue : OpType → Bytes → Type 0
HasNoValue op_put value = Unit
HasNoValue op_delete value = value ≡ []

abbrev pub IsWellFormed : Operation → Type 0
IsWellFormed op = HasNoValue op.op_type op.value

decode_op_type-Safe : (b : ℕ) → Safe (λ _. Unit) (decode_op_type b)
unfolding decode_op_type op_type_byte
decode_op_type-Safe b = elim (Bool-cases (b == 1)) [
  | inl p ↦ rw p tt
  | inr p ↦ elim (Bool-cases (b == 2)) [ inl q ↦ rw (p, q) tt | inr q ↦ rw (p, q) tt ]
]

Sound-decode_value : (t : OpType) → Sound 0 (HasNoValue t) (decode_value t)
unfolding decode_value
Sound-decode_value op_put = Sound-mono 4 0 (omega arith) (
    Sound-bind {P = λ _. Unit} _ _ 4 0 (Sound-reading 4 truncated_batch Sound-read_uint32) (λ n _.
      Sound-reading 0 truncated_batch
        (Sound-weaken (λ _ _. tt) (Sound-mono n 0 (omega arith) (Sound-read_bytes n)))))
Sound-decode_value op_delete = Sound-pure [] refl

Sound-decode_operation : Sound 1 IsWellFormed decode_operation
unfolding decode_operation
Sound-decode_operation = Sound-mono 5 1 (omega arith) (
    Sound-bind {P = λ _. Unit} _ _ 1 4 (Sound-reading 1 corrupt_batch Sound-read_byte) (λ b _.
      Sound-bind {P = λ _. Unit} _ _ 0 4 (Sound-lift (decode_op_type b) (decode_op_type-Safe b))
        (λ t _.
          Sound-bind {P = λ _. Unit} _ _ 4 0 (Sound-reading 4 truncated_batch Sound-read_uint32)
            (λ n _.
              Sound-bind _ _ 0 0
                (Sound-reading 0 truncated_batch
                  (Sound-mono n 0 (omega arith) (Sound-read_bytes n)))
                (λ key _. Sound-bind _ _ 0 0 (Sound-decode_value t) (λ value h. Sound-pure _ h))))))

Sound-decode_ops :
    (n : ℕ) (done : List Operation)
    → All IsWellFormed done
    → Sound 0 (λ ops. All IsWellFormed ops × (length ops ≡ length done + n)) (decode_ops n done)
unfolding decode_ops
Sound-decode_ops zero done h = Sound-pure done (h, omega arith)
Sound-decode_ops (suc n) done h = Sound-mono 1 0 (omega arith) (
    Sound-bind _ _ 1 0 Sound-decode_operation (λ op k.
      Sound-weaken (λ ops (all, len). (all, omega (arith, length-append done (op ∷ []))))
        (Sound-decode_ops n (done ++ (op ∷ []))
          (All-append IsWellFormed done (op ∷ []) h (k, tt)))))

Sound-decode_header : Sound 0 (λ _. Unit) decode_header
unfolding decode_header
Sound-decode_header = Sound-mono 1 0 (omega arith) (
    Sound-bind {P = λ _. Unit} _ _ 1 0 (Sound-reading 1 corrupt_batch Sound-read_byte) (λ version _.
      Sound-check (not (version == encoding_version)) bad_version 0 (λ _.
        Sound-bind _ _ 0 0
          (Sound-reading 0 corrupt_batch (Sound-mono 3 0 (omega arith) (Sound-read_bytes 3)))
          (λ reserved _. Sound-check (not (all_zero reserved)) corrupt_batch 0 (λ _.
            Sound-reading 0 corrupt_batch (Sound-mono 4 0 (omega arith) Sound-read_uint32))))))

Sound-expect_end :
    (ops : List Operation)
    → All IsWellFormed ops
    → Sound 0 (λ b. All IsWellFormed b.ops) (expect_end ops)
unfolding expect_end
Sound-expect_end ops h = record {
  at = λ r w. elim (Bool-cases (remaining r == 0)) [
    | inl e ↦ rw e (h, refl, omega arith, w)
    | inr e ↦ rw e tt
  ];
}

Sound-decode_body : Sound 0 (λ b. All IsWellFormed b.ops) decode_body
unfolding decode_body
Sound-decode_body =
    Sound-bind _ _ 0 0 Sound-decode_header
      (λ n _. Sound-bind _ _ 0 0 (Sound-decode_ops n [] tt) (λ ops (h, _). Sound-expect_end ops h))

result-Safe :
    (P : Batch → Type 0) (r : ByteReader) (x : Result BatchError (Batch × ByteReader))
    → Safe (After 0 P r) x
    → Safe P (result x)
result-Safe P r (ok (b, _)) h = h.0
result-Safe P r (err e) h = tt
result-Safe P r panic h = absurd h

-- On any bytes decoding returns a batch or one of its errors, with no panic, and a batch that it
-- returns has no value on any delete.
pub decode_batch-Safe : (buf : Bytes) → Safe (λ b. All IsWellFormed b.ops) (decode_batch buf)
unfolding decode_batch new_byte_reader
decode_batch-Safe buf =
    result-Safe (λ b. All IsWellFormed b.ops) (new_byte_reader buf)
      (decode_body (new_byte_reader buf)) (Sound-decode_body.at (new_byte_reader buf) (omega arith))
