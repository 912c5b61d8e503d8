-- ===== src/Keys/Codec.antt =====
-- Encoding and decoding of internal keys.
use beachdb.Prelude.{
  ℕ, ◌+◌, ◌-◌, ◌≤◌, ◌≡◌, refl, arith, [], ◌∷◌, ◌++◌, Bytes, length, take, drop, length-append,
  take-append_length, drop-append_length, ok, index, le→ltb-false, append-nil, append_assoc, Safe,
  length-take, length-drop, ltb-false→le, Bool-cases, inl, inr, ltb, true,
}
use beachdb.Coding.{put_uint64}
use beachdb.Coding.Words.{length-put_uint64, uint64-put_uint64}
use beachdb.Coding.Decoder.Sound.{index-total, uint64-total}
use beachdb.Keys.{InternalKey, KeyError, encode, decode_internal_key, is_valid_kind, IsValidKey}

pub length-encode : (k : InternalKey) → length (encode k) ≡ length k.user_key + 9
unfolding encode
length-encode k = omega (
  arith,
  length-append k.user_key (put_uint64 k.seqno ++ (k.kind ∷ [])),
  length-append (put_uint64 k.seqno) (k.kind ∷ []),
  length-put_uint64 k.seqno,
)

index-append_last : (xs : Bytes) (b : ℕ) → index {E = KeyError} (xs ++ (b ∷ [])) (length xs) ≡ ok b
index-append_last [] b = refl
index-append_last (x ∷ xs) b = index-append_last xs b

-- The three slices that decoding takes from an encoded key.
module _ (k : InternalKey) where
  user_key_bytes : take (length (encode k) - 9) (encode k) ≡ k.user_key
  user_key_bytes =
      let e : length (encode k) - 9 ≡ length k.user_key = omega (arith, length-encode k) in
      rw e (unfold encode in take-append_length k.user_key (put_uint64 k.seqno ++ (k.kind ∷ [])))

  seqno_bytes : take 8 (drop (length (encode k) - 9) (encode k)) ≡ put_uint64 k.seqno ++ []
  seqno_bytes =
      let e : length (encode k) - 9 ≡ length k.user_key = omega (arith, length-encode k) in
      rw e (
        unfold encode in
        rw (drop-append_length k.user_key (put_uint64 k.seqno ++ (k.kind ∷ [])), append-nil)
          (rw (← length-put_uint64 k.seqno)
            (take-append_length (put_uint64 k.seqno) (k.kind ∷ []))))

  kind_byte : index {E = KeyError} (encode k) (length (encode k) - 1) ≡ ok k.kind
  kind_byte =
      let e : length (encode k) - 1 ≡ length (k.user_key ++ put_uint64 k.seqno) = omega (
        arith,
        length-encode k,
        length-append k.user_key (put_uint64 k.seqno),
        length-put_uint64 k.seqno,
      ) in
      rw e (
        unfold encode in
        rw (← append_assoc k.user_key (put_uint64 k.seqno) (k.kind ∷ []))
          (index-append_last (k.user_key ++ put_uint64 k.seqno) k.kind))

-- Decoding the encoding of a key whose sequence number is below 2^64 and whose kind is supported
-- gives the key back.
pub decode_internal_key-encode :
    (k : InternalKey) → IsValidKey k → decode_internal_key (encode k) ≡ ok k
unfolding decode_internal_key
decode_internal_key-encode k v =
    rw
      (
        le→ltb-false (length (encode k)) 9 (omega (arith, length-encode k)),
        kind_byte k,
        v.kind,
        seqno_bytes k,
        uint64-put_uint64 {E = KeyError} k.seqno [] v.seqno,
        user_key_bytes k,
      )
      refl

-- On any bytes decoding a key does not panic; a key that it returns has a supported kind, and a
-- user key nine bytes shorter than the input.
pub decode_internal_key-Safe :
    (buf : Bytes)
    → Safe
        (λ k. (is_valid_kind k.kind ≡ true) × (length buf ≡ length k.user_key + 9))
        (decode_internal_key buf)
unfolding decode_internal_key
decode_internal_key-Safe buf = elim (Bool-cases (ltb (length buf) 9)) [
  | inl short ↦ rw short tt
  | inr long ↦
      let room : 9 ≤ length buf = ltb-false→le (length buf) 9 long in
      let (kind, last) = index-total {E = KeyError} buf (length buf - 1) (omega arith) in
      let (seqno, word) = uint64-total {E = KeyError} (take 8 (drop (length buf - 9) buf)) (
        omega
          (arith, length-take 8 (drop (length buf - 9) buf), length-drop (length buf - 9) buf)) in
      elim (Bool-cases (is_valid_kind kind)) [
        | inl good ↦
            rw (long, last, good, word) (good, omega (arith, length-take (length buf - 9) buf))
        | inr bad ↦ rw (long, last, bad) tt
      ]
]
