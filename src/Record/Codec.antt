-- ===== src/Record/Codec.antt =====
-- Headers read back.
use beachdb.Prelude.{
  ℕ, ◌≤◌, ◌≡◌, refl, sym, arith, true, [], ◌∷◌, ◌++◌, Bytes, length, length-append, ok, ==_iff,
  le→ltb-false, subst,
}
use beachdb.Coding.{put_uint32, IsU32}
use beachdb.Coding.Words.{uint32-put_uint32, length-put_uint32}
use beachdb.Checksum.{crc32c}
use beachdb.Record.{
  bytes_equal, Format, IsFormat, RecordError, header_size, type_full, encode_header, decode_header,
  validate_payload, version,
}

pub bytes_equal_refl : (as' : Bytes) → bytes_equal as' as' ≡ true
unfolding bytes_equal
bytes_equal_refl [] = refl
bytes_equal_refl (a ∷ as') = ground (arith, bytes_equal_refl as')

pub eq_of_bytes_equal : (as' bs : Bytes) → bytes_equal as' bs ≡ true → as' ≡ bs
unfolding bytes_equal
eq_of_bytes_equal [] [] e = refl
eq_of_bytes_equal [] (b ∷ bs) e = cc
eq_of_bytes_equal (a ∷ as') [] e = cc
eq_of_bytes_equal (a ∷ as') (b ∷ bs) e = ground (arith, eq_of_bytes_equal as' bs)

pub length-encode_header :
    (f : Format) (n crc : ℕ) → IsFormat f → length (encode_header f n crc) ≡ header_size
unfolding encode_header
length-encode_header f n crc good = omega (
  arith,
  length-append f.magic (version ∷ (type_full ∷ (put_uint32 n ++ put_uint32 crc))),
  length-append (put_uint32 n) (put_uint32 crc),
  length-put_uint32 n,
  length-put_uint32 crc,
  good.magic,
)

eight_bytes :
    (xs : Bytes) → length xs ≡ 8 → (a b c d e f g h : ℕ) × (xs ≡ a ∷ b ∷ c ∷ d ∷ e ∷ f ∷ g ∷ h ∷ [])
eight_bytes (a ∷ b ∷ c ∷ d ∷ e ∷ f ∷ g ∷ h ∷ []) l = (a, b, c, d, e, f, g, h, refl)
eight_bytes (a ∷ b ∷ c ∷ d ∷ e ∷ f ∷ g ∷ h ∷ i ∷ xs) l = absurd (omega arith)
eight_bytes (a ∷ b ∷ c ∷ d ∷ e ∷ f ∷ g ∷ []) l = absurd (omega arith)
eight_bytes (a ∷ b ∷ c ∷ d ∷ e ∷ f ∷ []) l = absurd (omega arith)
eight_bytes (a ∷ b ∷ c ∷ d ∷ e ∷ []) l = absurd (omega arith)
eight_bytes (a ∷ b ∷ c ∷ d ∷ []) l = absurd (omega arith)
eight_bytes (a ∷ b ∷ c ∷ []) l = absurd (omega arith)
eight_bytes (a ∷ b ∷ []) l = absurd (omega arith)
eight_bytes (a ∷ []) l = absurd (omega arith)
eight_bytes [] l = absurd (omega arith)

header_computes :
    (a b c d e g h i max n crc : ℕ)
    → IsU32 n
    → n ≤ max
    → IsU32 crc
    → let f : Format = record {
      magic = a ∷ b ∷ c ∷ d ∷ e ∷ g ∷ h ∷ i ∷ [];
      max_payload_size = max;
    } in
      decode_header f (encode_header f n crc)
      ≡ ok (record { record_type = type_full; payload_length = n; checksum = crc })
unfolding decode_header encode_header put_uint32
header_computes a b c d e g h i max n crc small fits crc_small =
    rw
      (
        bytes_equal_refl (a ∷ b ∷ c ∷ d ∷ e ∷ g ∷ h ∷ i ∷ []),
        uint32-put_uint32 {E = RecordError} n [] small,
        le→ltb-false max n fits,
        uint32-put_uint32 {E = RecordError} crc [] crc_small,
      )
      refl

-- Decoding the encoding of a header of an eight-byte format, with a length that is below 2^32 and
-- within the format's limit and a checksum below 2^32, gives the type, the length and the
-- checksum.
pub decode_header-encode_header :
    (f : Format) (n crc : ℕ)
    → IsFormat f
    → IsU32 n
    → n ≤ f.max_payload_size
    → IsU32 crc
    → decode_header f (encode_header f n crc)
      ≡ ok (record { record_type = type_full; payload_length = n; checksum = crc })
decode_header-encode_header f n crc good small fits crc_small =
    let (a, b, c, d, e, g, h, i, eq) = eight_bytes f.magic good.magic in
    subst
      (λ (m : Bytes).
        let f' : Format = record { magic = m; max_payload_size = f.max_payload_size } in
        decode_header f' (encode_header f' n crc)
        ≡ ok (record { record_type = type_full; payload_length = n; checksum = crc }))
      (sym eq) (header_computes a b c d e g h i f.max_payload_size n crc small fits crc_small)

pub validate_payload_lem : (payload : Bytes) → validate_payload payload (crc32c payload) ≡ ok tt
unfolding validate_payload
validate_payload_lem payload = ground (arith, ==_iff (crc32c payload) (crc32c payload))
