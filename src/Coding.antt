-- ===== src/Coding.antt =====
-- internal/util/coding/coding.go: big-endian words and the bounds-checked byte reader.
-- encoding/binary is the standard library's: its words are written out here.
pub mod Words
pub mod Unread
pub mod Decoder
use beachdb.Prelude.{
  ℕ, ◌+◌, ◌-◌, ◌*◌, ◌/◌, ◌%◌, ◌^◌, ◌<◌, List, [], ◌∷◌, ◌++◌, Bytes, length, take, drop,
}
use beachdb.Prelude.{Result, ok, err, panic, ◌>>=◌, ◌>>◌, return_if, index, ltb, leb}

abbrev pub IsByte : ℕ → Type 0
IsByte b = b < 256

abbrev pub IsU32 : ℕ → Type 0
IsU32 v = v < 2 ^ 32

abbrev pub IsU64 : ℕ → Type 0
IsU64 v = v < 2 ^ 64

unfoldable pub put_uint32 : ℕ → Bytes
put_uint32 v = v / 2 ^ 24 % 256 ∷ v / 2 ^ 16 % 256 ∷ v / 2 ^ 8 % 256 ∷ v % 256 ∷ []

-- The high word, then the low word.
unfoldable pub put_uint64 : ℕ → Bytes
unfolding put_uint32
put_uint64 v = put_uint32 (v / 2 ^ 32) ++ put_uint32 (v % 2 ^ 32)

-- A source of fewer than four bytes panics.
unfoldable pub uint32 {ℓ} : {E : Type ℓ} → Bytes → Result E ℕ
uint32 (a ∷ b ∷ c ∷ d ∷ _) = ok (a * 2 ^ 24 + b * 2 ^ 16 + c * 2 ^ 8 + d)
uint32 _ = panic

unfoldable pub uint64 {ℓ} : {E : Type ℓ} → Bytes → Result E ℕ
unfolding uint32
uint64 src = do high ← uint32 src; low ← uint32 (drop 4 src); ok (high * 2 ^ 32 + low)

-- io.ErrUnexpectedEOF, the only error of the reader.
pub data ReadError : Type 0 where
  unexpected_eof : ReadError

pub record ByteReader : Type 0 where
  pub bytes : Bytes
  pub offset : ℕ

unfoldable pub new_byte_reader : Bytes → ByteReader
new_byte_reader bytes = record { bytes = bytes; offset = 0 }

unfoldable pub remaining : ByteReader → ℕ
remaining r = length r.bytes - r.offset

-- `r.offset += n`
abbrev pub advance : ℕ → ByteReader → ByteReader
advance n r = record r { offset = r.offset + n }

unfoldable pub read_byte : ByteReader → Result ReadError (ℕ × ByteReader)
read_byte r = do
  return_if (leb (length r.bytes) r.offset) unexpected_eof
  b ← index r.bytes r.offset
  ok (b, advance 1 r)

unfoldable pub read_uint32 : ByteReader → Result ReadError (ℕ × ByteReader)
read_uint32 r = do
  return_if (ltb (length r.bytes) (r.offset + 4)) unexpected_eof
  v ← uint32 (drop r.offset r.bytes)
  ok (v, advance 4 r)

unfoldable pub read_uint64 : ByteReader → Result ReadError (ℕ × ByteReader)
read_uint64 r = do
  return_if (ltb (length r.bytes) (r.offset + 8)) unexpected_eof
  v ← uint64 (drop r.offset r.bytes)
  ok (v, advance 8 r)

-- `r.data[r.offset : r.offset+n]`
unfoldable pub read_bytes : ℕ → ByteReader → Result ReadError (Bytes × ByteReader)
read_bytes n r = do
  return_if (ltb (length r.bytes) (r.offset + n)) unexpected_eof
  ok (take n (drop r.offset r.bytes), advance n r)
