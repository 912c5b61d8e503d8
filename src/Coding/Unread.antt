-- ===== src/Coding/Unread.antt =====
-- What a byte reader has still to read, and its reads in terms of that.
use beachdb.Prelude.{
  ℕ, zero, suc, ◌+◌, ◌≤◌, ◌<◌, ◌≡◌, refl, sym, ap, ◌∙◌, arith, [], ◌∷◌, ◌++◌, Bytes,
}
use beachdb.Prelude.{
  length, drop, length-append, length-drop, take-append_length, drop-append_length, drop-drop, ok,
  err, index, le→ltb-false,
}
use beachdb.Coding.{
  IsU32, IsU64, put_uint32, put_uint64, ReadError, unexpected_eof, ByteReader, new_byte_reader,
  remaining, advance, read_byte, read_uint32, read_uint64, read_bytes,
}
use beachdb.Coding.Words.{
  uint32-put_uint32, uint64-put_uint64, length-put_uint32, length-put_uint64,
}

pub record Unread (r : ByteReader) (rest : Bytes) : Type 0 where
  pub suffix : drop r.offset r.bytes ≡ rest
  pub within : r.offset ≤ length r.bytes

-- A new reader has everything to read.
pub Unread-new_byte_reader : (bs : Bytes) → Unread (new_byte_reader bs) bs
unfolding new_byte_reader
Unread-new_byte_reader bs = record { suffix = refl; within = omega arith }

module _ {r : ByteReader} {rest : Bytes} (h : Unread r rest) where
  pub length-Unread : length r.bytes ≡ r.offset + length rest
  length-Unread =
      omega (arith, h.within, length-drop r.offset r.bytes, ap (length {A = ℕ}) h.suffix)

  pub remaining-Unread : remaining r ≡ length rest
  unfolding remaining
  remaining-Unread = omega (arith, length-Unread)

  pub read_uint32_short : length rest < 4 → read_uint32 r ≡ err unexpected_eof
  unfolding read_uint32
  read_uint32_short short = ground (arith, length-Unread)

  pub read_bytes_short : (n : ℕ) → length rest < n → read_bytes n r ≡ err unexpected_eof
  unfolding read_bytes
  read_bytes_short n short = ground (arith, length-Unread)

pub advance-Unread :
    (front rest : Bytes) (r : ByteReader)
    → Unread r (front ++ rest)
    → Unread (advance (length front) r) rest
advance-Unread front rest r h = record {
  suffix =
      sym (drop-drop r.offset (length front) r.bytes)
      ∙ ap (drop (length front)) h.suffix
      ∙ drop-append_length front rest;
  within = omega (arith, length-Unread h, length-append front rest);
}

index-drop {ℓ} :
    {E : Type ℓ} (n : ℕ) (xs : Bytes) {b : ℕ} {rest : Bytes}
    → drop n xs ≡ b ∷ rest
    → index {E = E} xs n ≡ ok b
index-drop zero [] e = cc
index-drop zero (x ∷ xs) e = cc
index-drop (suc n) [] e = cc
index-drop (suc n) (x ∷ xs) e = index-drop n xs e

pub read_byte-Unread :
    (b : ℕ) (rest : Bytes) (r : ByteReader)
    → Unread r (b ∷ rest)
    → read_byte r ≡ ok (b, advance 1 r)
unfolding read_byte
read_byte-Unread b rest r h =
    ground (arith, length-Unread h, index-drop {E = ReadError} r.offset r.bytes h.suffix)

pub read_uint32-Unread :
    (v : ℕ) (rest : Bytes) (r : ByteReader)
    → IsU32 v
    → Unread r (put_uint32 v ++ rest)
    → read_uint32 r ≡ ok (v, advance 4 r)
unfolding read_uint32
read_uint32-Unread v rest r small h =
    rw
      (
        le→ltb-false (length r.bytes) (r.offset + 4) (
            omega (arith, length-Unread h, length-append (put_uint32 v) rest, length-put_uint32 v)),
        h.suffix,
        uint32-put_uint32 {E = ReadError} v rest small,
      )
      refl

pub read_uint64-Unread :
    (v : ℕ) (rest : Bytes) (r : ByteReader)
    → IsU64 v
    → Unread r (put_uint64 v ++ rest)
    → read_uint64 r ≡ ok (v, advance 8 r)
unfolding read_uint64
read_uint64-Unread v rest r small h =
    rw
      (
        le→ltb-false (length r.bytes) (r.offset + 8) (
            omega (arith, length-Unread h, length-append (put_uint64 v) rest, length-put_uint64 v)),
        h.suffix,
        uint64-put_uint64 {E = ReadError} v rest small,
      )
      refl

pub read_bytes-Unread :
    (bs rest : Bytes) (r : ByteReader)
    → Unread r (bs ++ rest)
    → read_bytes (length bs) r ≡ ok (bs, advance (length bs) r)
unfolding read_bytes
read_bytes-Unread bs rest r h =
    rw
      (
        le→ltb-false (length r.bytes) (r.offset + length bs)
            (omega (arith, length-Unread h, length-append bs rest)),
        h.suffix,
      )
      (ap (λ (t : Bytes). ok (t, advance (length bs) r)) (take-append_length bs rest))
