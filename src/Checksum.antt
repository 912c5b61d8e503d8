-- ===== src/Checksum.antt =====
-- internal/util/checksum/checksum.go: CRC-32C, the standard library's hash/crc32 with the Castagnoli
-- polynomial, bit by bit. A uint32 result keeps its low 32 bits.
use Prim.Native.Nat.{bit_xor}
use beachdb.Prelude.{ℕ, ◌/◌, ◌%◌, ◌^◌, ◌≡◌, refl, arith, [], ◌∷◌, Bytes, ◌==◌, if◌then◌else◌}
use beachdb.Coding.{IsU32}
use mathlib.Core.List.{foldl}

crc_bit : ℕ → ℕ
crc_bit c = if c % 2 == 1 then bit_xor (c / 2) 0x82f6_3b78 else c / 2

crc_byte : ℕ → ℕ → ℕ
unfolding crc_bit
crc_byte c b =
    crc_bit (crc_bit (crc_bit (crc_bit (crc_bit (crc_bit (crc_bit (crc_bit (bit_xor c b))))))))

unfoldable pub crc32c : Bytes → ℕ
unfolding crc_byte
crc32c buf = bit_xor (foldl crc_byte 0xffff_ffff buf) 0xffff_ffff % 2 ^ 32

pub crc32c-IsU32 : (buf : Bytes) → IsU32 (crc32c buf)
unfolding crc32c
crc32c-IsU32 buf = omega arith

-- The check value of CRC-32C, over the text 123456789.
crc32c_check :
    crc32c (0x31 ∷ 0x32 ∷ 0x33 ∷ 0x34 ∷ 0x35 ∷ 0x36 ∷ 0x37 ∷ 0x38 ∷ 0x39 ∷ []) ≡ 0xe306_9283
unfolding crc32c
crc32c_check = refl
