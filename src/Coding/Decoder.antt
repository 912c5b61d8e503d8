-- ===== src/Coding/Decoder.antt =====
-- Decoding functions: each reads from the byte reader and returns a value or an error.
-- The reader that a failed call leaves behind is dropped, as every caller in the source drops it.
pub mod Consumes
pub mod Loop
pub mod Sound
use beachdb.Prelude.{
  ℕ, zero, suc, Bool, true, false, Result, ok, err, panic, return_if, or_err, ltb,
}
use beachdb.Coding.{ByteReader, ReadError, remaining}

abbrev pub Decoder : Type 0 → Type 0 → Type 0
Decoder E A = ByteReader → Result E (A × ByteReader)

abbrev pub pure : {E A : Type 0} → A → Decoder E A
pure a r = ok (a, r)

-- A value computed without the reader.
abbrev pub lift : {E A : Type 0} → Result E A → Decoder E A
lift (ok a) r = ok (a, r)
lift (err e) r = err e
lift panic r = panic

-- `if b { return err }`
abbrev pub fail_if : {E : Type 0} → Bool → E → Decoder E (Unit {0})
fail_if b e = lift (return_if b e)

-- `if err != nil { return e }` after a read.
abbrev pub reading : {E A : Type 0} → Decoder ReadError A → E → Decoder E A
reading m e r = or_err (m r) e

infixl 5 ◌>>=◌ ◌>>◌
abbrev pub ◌>>=◌ : {E A B : Type 0} → Decoder E A → (A → Decoder E B) → Decoder E B
◌>>=◌ m f r = elim (m r) [ ok (a, r') ↦ f a r' | err e ↦ err e | panic ↦ panic ]

abbrev pub ◌>>◌ : {E B : Type 0} → Decoder E (Unit {0}) → Decoder E B → Decoder E B
m >> k = m >>= λ _. k

-- `for r.Remaining() > 0 { body }` over the loop's variables. Running out of fuel counts as a
-- panic, so a proof that there is none shows that the fuel is enough.
unfoldable pub while_remaining : {E S : Type 0} → ℕ → (S → Decoder E S) → S → Decoder E S
while_remaining zero body s r = elim (ltb 0 (remaining r)) [ true ↦ panic | false ↦ ok (s, r) ]
while_remaining (suc fuel) body s r = elim (ltb 0 (remaining r)) [
  | true ↦ (body s >>= λ s'. while_remaining fuel body s') r
  | false ↦ ok (s, r)
]
