-- ===== src/Coding/Decoder/Sound.antt =====
-- Decoders that never panic, keep inside the input, and take a number of bytes at least.
use beachdb.Prelude.{
  ℕ, zero, suc, ◌+◌, ◌-◌, ◌*◌, ◌^◌, ◌≤◌, ◌<◌, ◌≡◌, refl, ◌∙◌, arith, [], ◌∷◌, Bytes, Bool, true,
  false, inl, inr,
}
use beachdb.Prelude.{
  length, drop, length-drop, length-take, Result, ok, err, panic, Safe, index, ltb, leb, or_err,
  Bool-cases, ltb→lt, le→ltb-false, ltb-false→le, leb-false→lt,
}
use beachdb.Coding.{
  uint32, uint64, ByteReader, ReadError, remaining, read_byte, read_uint32, read_uint64, read_bytes,
}
use beachdb.Coding.Decoder.Loop.{while_remaining_done, while_remaining_more}
use beachdb.Coding.Decoder.{Decoder, pure, lift, fail_if, reading, ◌>>=◌, ◌>>◌, while_remaining}

-- The value meets `P`, and the reader has moved on by `k` bytes at least.
abbrev pub After : {A : Type 0} → ℕ → (A → Type 0) → ByteReader → A × ByteReader → Type 0
After k P r p =
    P p.0 × (p.1.bytes ≡ r.bytes) × (r.offset + k ≤ p.1.offset) × (p.1.offset ≤ length r.bytes)

pub record Sound {E A : Type 0} (k : ℕ) (P : A → Type 0) (m : Decoder E A) : Type 0 where
  pub at : (r : ByteReader) → r.offset ≤ length r.bytes → Safe (After k P r) (m r)

module _ {E A : Type 0} {P : A → Type 0} where
  pub Sound-pure : (a : A) → P a → Sound {E = E} 0 P (pure a)
  Sound-pure a h = record { at = λ r w. (h, refl, omega arith, w) }

  pub Sound-lift : (m : Result E A) → Safe P m → Sound 0 P (lift m)
  Sound-lift (ok a) h = record { at = λ r w. (h, refl, omega arith, w) }
  Sound-lift (err e) h = record { at = λ r w. tt }
  Sound-lift panic h = absurd h

  pub Sound-mono : {m : Decoder E A} (j k : ℕ) → k ≤ j → Sound j P m → Sound k P m
  Sound-mono {m = m} j k le s = record { at = λ r w. go r (m r) (s.at r w) }
    where
      go :
          (r : ByteReader) (x : Result E (A × ByteReader))
          → Safe (After j P r) x
          → Safe (After k P r) x
      go r (ok p) (h, same, more, within) = (h, same, omega arith, within)
      go r (err e) h = tt
      go r panic h = absurd h

  pub Sound-reading :
      {m : Decoder ReadError A} (k : ℕ) (e : E) → Sound k P m → Sound k P (reading m e)
  Sound-reading {m = m} k e s = record { at = λ r w. go r (m r) (s.at r w) }
    where
      go :
          (r : ByteReader) (x : Result ReadError (A × ByteReader))
          → Safe (After k P r) x
          → Safe (After k P r) (or_err x e)
      go r (ok p) h = h
      go r (err _) h = tt
      go r panic h = absurd h

module _ {E A B : Type 0} {P : A → Type 0} {Q : B → Type 0} where
  pub Sound-bind :
      (m : Decoder E A) (f : A → Decoder E B) (j k : ℕ)
      → Sound j P m
      → ((a : A) → P a → Sound k Q (f a))
      → Sound (j + k) Q (m >>= f)
  Sound-bind m f j k sm sf = record { at = λ r w. first r w (m r) (sm.at r w) }
    where
      second :
          (r r' : ByteReader) (x : Result E (B × ByteReader))
          → r'.bytes ≡ r.bytes
          → r.offset + j ≤ r'.offset
          → Safe (After k Q r') x
          → Safe (After (j + k) Q r) x
      second r r' (ok q) same le (h, same', le', within) =
          (h, same' ∙ same, omega arith, rw (← same) within)
      second r r' (err e) same le h = tt
      second r r' panic same le h = absurd h

      first :
          (r : ByteReader)
          → r.offset ≤ length r.bytes
          → (x : Result E (A × ByteReader)) → Safe (After j P r) x
          → Safe
              (After (j + k) Q r)
              (elim x [ ok (a, r') ↦ f a r' | err e ↦ err e | panic ↦ panic ])
      first r w (ok (a, r')) (h, same, le, within) =
          second r r' (f a r') same le ((sf a h).at r' (rw same within))
      first r w (err e) h = tt
      first r w panic h = absurd h

-- The reads of the byte reader.
pub index-total :
    {E : Type 0} (xs : Bytes) (n : ℕ) → n < length xs → (b : ℕ) × (index {E = E} xs n ≡ ok b)
index-total [] n h = absurd (omega arith)
index-total (x ∷ xs) zero h = (x, refl)
index-total (x ∷ xs) (suc n) h = index-total xs n (omega arith)

pub uint32-total {ℓ} :
    {E : Type ℓ} (xs : Bytes) → 4 ≤ length xs → (v : ℕ) × (uint32 {E = E} xs ≡ ok v)
unfolding uint32
uint32-total (a ∷ b ∷ c ∷ d ∷ xs) h = (a * 2 ^ 24 + b * 2 ^ 16 + c * 2 ^ 8 + d, refl)
uint32-total [] h = absurd (omega arith)
uint32-total (a ∷ []) h = absurd (omega arith)
uint32-total (a ∷ b ∷ []) h = absurd (omega arith)
uint32-total (a ∷ b ∷ c ∷ []) h = absurd (omega arith)

pub uint64-total {ℓ} :
    {E : Type ℓ} (xs : Bytes) → 8 ≤ length xs → (v : ℕ) × (uint64 {E = E} xs ≡ ok v)
unfolding uint64
uint64-total {E = E} xs h =
    let (high, p) = uint32-total {E = E} xs (omega arith) in
    let (low, q) = uint32-total {E = E} (drop 4 xs) (omega (arith, length-drop 4 xs)) in
    (high * 2 ^ 32 + low, rw (p, q) refl)

pub Sound-read_byte : Sound 1 (λ _. Unit) read_byte
unfolding read_byte
Sound-read_byte = record {
  at = λ r w. elim (Bool-cases (leb (length r.bytes) r.offset)) [
    | inl e ↦ rw e tt
    | inr e ↦
        let (b, p) = index-total {E = ReadError} r.bytes r.offset (leb-false→lt _ _ e) in
        rw (e, p) (tt, refl, omega arith, omega (arith, leb-false→lt (length r.bytes) r.offset e))
  ];
}

pub Sound-read_uint32 : Sound 4 (λ _. Unit) read_uint32
unfolding read_uint32
Sound-read_uint32 = record {
  at = λ r w. elim (Bool-cases (ltb (length r.bytes) (r.offset + 4))) [
    | inl e ↦ rw e tt
    | inr e ↦
        let room : r.offset + 4 ≤ length r.bytes = ltb-false→le _ _ e in
        let (v, p) =
          uint32-total {E = ReadError} (drop r.offset r.bytes)
            (omega (arith, length-drop r.offset r.bytes)) in
        rw (e, p) (tt, refl, omega arith, room)
  ];
}

pub Sound-read_uint64 : Sound 8 (λ _. Unit) read_uint64
unfolding read_uint64
Sound-read_uint64 = record {
  at = λ r w. elim (Bool-cases (ltb (length r.bytes) (r.offset + 8))) [
    | inl e ↦ rw e tt
    | inr e ↦
        let room : r.offset + 8 ≤ length r.bytes = ltb-false→le _ _ e in
        let (v, p) =
          uint64-total {E = ReadError} (drop r.offset r.bytes)
            (omega (arith, length-drop r.offset r.bytes)) in
        rw (e, p) (tt, refl, omega arith, room)
  ];
}

-- The slice has the length that was asked for.
pub Sound-read_bytes : (n : ℕ) → Sound n (λ bs. length bs ≡ n) (read_bytes n)
unfolding read_bytes
Sound-read_bytes n = record {
  at = λ r w. elim (Bool-cases (ltb (length r.bytes) (r.offset + n))) [
    | inl e ↦ rw e tt
    | inr e ↦
        let room : r.offset + n ≤ length r.bytes = ltb-false→le _ _ e in
        rw e (
          omega (arith, length-take n (drop r.offset r.bytes), length-drop r.offset r.bytes),
          refl,
          omega arith,
          room,
        )
  ];
}

-- The loop ends before its fuel does when every round takes a byte.
module _ {E S : Type 0} {P : S → Type 0} (body : S → Decoder E S) where
  After-round :
      (fuel : ℕ) (r : ByteReader) (x : Result E (S × ByteReader))
      → ((s : S) (r' : ByteReader)
          → After 1 P r (s, r')
          → Safe (After 0 P r') (while_remaining fuel body s r'))
      → Safe (After 1 P r) x
      → Safe
          (After 0 P r)
          (elim x [ ok (s, r') ↦ while_remaining fuel body s r' | err e ↦ err e | panic ↦ panic ])
  After-round fuel r (ok (s, r')) ih a =
      let (h, same, le, within) = a in go (while_remaining fuel body s r') same le (ih s r' a)
    where
      go :
          (y : Result E (S × ByteReader))
          → r'.bytes ≡ r.bytes
          → r.offset + 1 ≤ r'.offset
          → Safe (After 0 P r') y
          → Safe (After 0 P r) y
      go (ok q) same le (h, same', le', within) = (h, same' ∙ same, omega arith, rw (← same) within)
      go (err e) same le h = tt
      go panic same le h = absurd h
  After-round fuel r (err e) ih a = tt
  After-round fuel r panic ih a = absurd a

  pub Sound-while_remaining :
      ((s : S) → P s → Sound 1 P (body s))
      → (fuel : ℕ) (s : S) (r : ByteReader) → P s
      → r.offset ≤ length r.bytes
      → remaining r ≤ fuel
      → Safe (After 0 P r) (while_remaining fuel body s r)
  unfolding remaining
  Sound-while_remaining sound zero s r h w enough =
      rw
        (while_remaining_done body s r zero
          (le→ltb-false 0 (length r.bytes - r.offset) (omega arith)))
        (h, refl, omega arith, w)
  Sound-while_remaining sound (suc fuel) s r h w enough = elim (Bool-cases (ltb 0 (remaining r))) [
    | inl e ↦ rw (while_remaining_more body s r fuel e) (
        After-round fuel r (body s r)
          (λ s' r' (h', same, le, within).
            Sound-while_remaining sound fuel s' r' h' (rw same within)
              (rw same (omega (arith, ltb→lt 0 (length r.bytes - r.offset) e))))
          ((sound s h).at r w))
    | inr e ↦ rw (while_remaining_done body s r (suc fuel) e) (h, refl, omega arith, w)
  ]

pub Sound-weaken :
    {E A : Type 0} {k : ℕ} {P Q : A → Type 0} {m : Decoder E A}
    → ((a : A) → P a → Q a)
    → Sound k P m
    → Sound k Q m
Sound-weaken {E} {A} {k = k} {P = P} {Q = Q} {m = m} f s = record {
  at = λ r w. go r (m r) (s.at r w);
}
  where
    go :
        (r : ByteReader) (x : Result E (A × ByteReader))
        → Safe (After k P r) x
        → Safe (After k Q r) x
    go r (ok (a, r')) (h, same, le, within) = (f a h, same, le, within)
    go r (err e) h = tt
    go r panic h = absurd h

-- A guard, and what follows where it passes.
pub Sound-check :
    {E B : Type 0} {Q : B → Type 0} {cont : Decoder E B} (test : Bool) (e : E) (k : ℕ)
    → (test ≡ false → Sound k Q cont)
    → Sound k Q (fail_if test e >> cont)
Sound-check true e k s = record { at = λ r w. tt }
Sound-check false e k s = record { at = λ r w. (s refl).at r w }
