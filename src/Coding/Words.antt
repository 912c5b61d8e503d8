-- ===== src/Coding/Words.antt =====
-- Words read back what was put, and are words.
use beachdb.Prelude.{ℕ, ◌+◌, ◌*◌, ◌^◌, ◌≡◌, refl, ap, arith, [], ◌∷◌, ◌++◌, Bytes, length}
use beachdb.Prelude.{All, ok}
use beachdb.Coding.{IsByte, IsU32, IsU64, put_uint32, put_uint64, uint32, uint64}

pub uint32-put_uint32 {ℓ} :
    {E : Type ℓ} (v : ℕ) (rest : Bytes) → IsU32 v → uint32 {E = E} (put_uint32 v ++ rest) ≡ ok v
unfolding uint32 put_uint32
uint32-put_uint32 v rest h = ap ok (omega arith)

pub uint64-put_uint64 {ℓ} :
    {E : Type ℓ} (v : ℕ) (rest : Bytes) → IsU64 v → uint64 {E = E} (put_uint64 v ++ rest) ≡ ok v
unfolding uint64 put_uint64
uint64-put_uint64 v rest h = ap ok (omega arith)

pub length-put_uint32 : (v : ℕ) → length (put_uint32 v) ≡ 4
unfolding put_uint32
length-put_uint32 v = refl

pub length-put_uint64 : (v : ℕ) → length (put_uint64 v) ≡ 8
unfolding put_uint64
length-put_uint64 v = refl

pub put_uint32-IsByte : (v : ℕ) → All IsByte (put_uint32 v)
unfolding put_uint32
put_uint32-IsByte v = omega arith

pub put_uint64-IsByte : (v : ℕ) → All IsByte (put_uint64 v)
unfolding put_uint64
put_uint64-IsByte v = omega arith

-- Reading bytes and putting them again: four bytes are one word and no more.
pub put_uint32-bytes :
    (a b c d : ℕ)
    → IsByte a
    → IsByte b
    → IsByte c
    → IsByte d
    → put_uint32 (a * 2 ^ 24 + b * 2 ^ 16 + c * 2 ^ 8 + d) ≡ a ∷ b ∷ c ∷ d ∷ []
unfolding put_uint32
put_uint32-bytes a b c d ha hb hc hd = ground arith
