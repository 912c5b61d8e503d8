-- ===== src/Engine/Names/Decimal.antt =====
-- engine/db.go: a number printed in decimal and padded, and its name, read back.
use beachdb.Prelude.{
  ℕ, zero, suc, ◌+◌, ◌-◌, ◌*◌, ◌/◌, ◌%◌, ◌^◌, ◌≤◌, ◌<◌, ◌≡◌, refl, ap, ◌∙◌, subst, arith, true,
  false, [], ◌∷◌, ◌++◌, Bytes, some, length, take, replicate, length-append, take-append_length,
  ltb, lt→ltb, ◌==◌, Bool-cases, inl, inr, ltb→lt, ltb-false→le,
}
use beachdb.Record.{bytes_equal}
use beachdb.Engine.Names.{
  sstable_file_ext, digits, padded, build_sst_file_name, all_digits, value_from, parse_uint, ext,
  parse_sst_file_name,
}

all_digits-append :
    (xs ys : Bytes) → all_digits xs ≡ true → all_digits ys ≡ true → all_digits (xs ++ ys) ≡ true
all_digits-append [] ys h k = k
all_digits-append (x ∷ xs) ys h k = ground (arith, all_digits-append xs ys)

all_digits-replicate : (n : ℕ) → all_digits (replicate n b'0') ≡ true
all_digits-replicate zero = refl
all_digits-replicate (suc n) = all_digits-replicate n

digit : (n : ℕ) → n < 10 → all_digits ((b'0' + n) ∷ []) ≡ true
digit n h = ground arith

all_digits-digits : (fuel n : ℕ) → all_digits (digits fuel n) ≡ true
unfolding digits
all_digits-digits zero n = refl
all_digits-digits (suc fuel) n = elim (Bool-cases (ltb n 10)) [
  | inl e ↦ rw e (digit n (ltb→lt n 10 e))
  | inr e ↦ rw e (
      all_digits-append (digits fuel (n / 10)) _ (all_digits-digits fuel (n / 10))
        (digit (n % 10) (omega arith)))
]

value_from-append :
    (n : ℕ) (xs ys : Bytes) → value_from n (xs ++ ys) ≡ value_from (value_from n xs) ys
unfolding value_from
value_from-append n [] ys = refl
value_from-append n (x ∷ xs) ys = value_from-append (n * 10 + (x - b'0')) xs ys

value_from-zeros : (k : ℕ) (xs : Bytes) → value_from 0 (replicate k b'0' ++ xs) ≡ value_from 0 xs
unfolding value_from
value_from-zeros zero xs = refl
value_from-zeros (suc k) xs = value_from-zeros k xs

value_from-digits : (fuel n : ℕ) → n < fuel → value_from 0 (digits fuel n) ≡ n
unfolding digits value_from
value_from-digits zero n h = absurd (omega arith)
value_from-digits (suc fuel) n h = elim (Bool-cases (ltb n 10)) [
  | inl e ↦ rw e (omega arith)
  | inr e ↦
      let le : 10 ≤ n = ltb-false→le n 10 e in
      let v : value_from 0 (digits fuel (n / 10)) ≡ n / 10 =
        value_from-digits fuel (n / 10) (omega arith) in
      rw (e, value_from-append 0 (digits fuel (n / 10)) ((b'0' + n % 10) ∷ []), v) (omega arith)
]

length-digits : (width fuel n : ℕ) → n < 10 ^ suc width → length (digits fuel n) ≤ suc width
unfolding digits
length-digits width zero n h = omega arith
length-digits zero (suc fuel) n h = elim (Bool-cases (ltb n 10)) [
  | inl e ↦ rw e (omega arith)
  | inr e ↦ absurd (omega (arith, ltb-false→le n 10 e))
]
length-digits (suc width) (suc fuel) n h = elim (Bool-cases (ltb n 10)) [
  | inl e ↦ rw e (omega arith)
  | inr e ↦
      let shorter = length-digits width fuel (n / 10) (omega arith) in
      rw (e, length-append (digits fuel (n / 10)) ((b'0' + n % 10) ∷ [])) (omega arith)
]

length-replicate : (n c : ℕ) → length (replicate n c) ≡ n
length-replicate zero c = refl
length-replicate (suc n) c = ap suc (length-replicate n c)

length-padded : (width id : ℕ) → id < 10 ^ suc width → length (padded (suc width) id) ≡ suc width
unfolding padded
length-padded width id h =
    let short = length-digits width (id + 1) id h in
    let pad = suc width - length (digits (id + 1) id) in
    rw (length-append (replicate pad b'0') (digits (id + 1) id), length-replicate pad b'0')
      (omega arith)

all_digits-padded : (width id : ℕ) → all_digits (padded width id) ≡ true
unfolding padded
all_digits-padded width id =
    let pad = width - length (digits (id + 1) id) in
    all_digits-append (replicate pad b'0') _ (all_digits-replicate pad)
      (all_digits-digits (id + 1) id)

value_from-padded : (width id : ℕ) → value_from 0 (padded width id) ≡ id
unfolding padded
value_from-padded width id =
    let pad = width - length (digits (id + 1) id) in
    value_from-zeros pad (digits (id + 1) id) ∙ value_from-digits (id + 1) id (omega arith)

parse_uint-of :
    (text : Bytes) (n : ℕ)
    → 0 < length text
    → all_digits text ≡ true
    → value_from 0 text ≡ n
    → n < 2 ^ 64
    → parse_uint text ≡ some n
unfolding parse_uint
parse_uint-of [] n l d v h = absurd (omega arith)
parse_uint-of (c ∷ cs) n l d v h =
    let some_digit : (length (c ∷ cs) == 0) ≡ false = ground arith in
    rw (some_digit, d, v, lt→ltb n (2 ^ 64) h) refl

pub parse_uint-bound : (text : Bytes) (n : ℕ) → parse_uint text ≡ some n → n < 2 ^ 64
unfolding parse_uint
parse_uint-bound text n h = ground arith

nonempty-digits : (fuel n : ℕ) → 0 < length (digits (suc fuel) n)
unfolding digits
nonempty-digits fuel n = elim (Bool-cases (ltb n 10)) [
  | inl e ↦ rw e (omega arith)
  | inr e ↦ rw (e, length-append (digits fuel (n / 10)) ((b'0' + n % 10) ∷ [])) (omega arith)
]

nonempty-padded : (width id : ℕ) → 0 < length (padded width id)
unfolding padded
nonempty-padded width id =
    let pad = width - length (digits (id + 1) id) in
    let text : 0 < length (digits (id + 1) id) =
      let e : id + 1 ≡ suc id = omega arith in rw e (nonempty-digits id id) in
    rw (length-append (replicate pad b'0') (digits (id + 1) id)) (omega arith)

pub parse_uint-padded : (width id : ℕ) → id < 2 ^ 64 → parse_uint (padded width id) ≡ some id
parse_uint-padded width id h =
    parse_uint-of (padded width id) id (nonempty-padded width id) (all_digits-padded width id)
      (value_from-padded width id) h

ext-append : (xs : Bytes) → ext (xs ++ sstable_file_ext) ≡ sstable_file_ext
unfolding ext
ext-append [] = refl
ext-append (x ∷ xs) = rw (ext-append xs) refl

-- parse
pub parse_sst_file_name-build_sst_file_name :
    (id : ℕ) → id < 2 ^ 64 → parse_sst_file_name (build_sst_file_name id) ≡ some id
unfolding parse_sst_file_name build_sst_file_name bytes_equal
parse_sst_file_name-build_sst_file_name id h =
    let text : Bytes = padded 20 id in
    let l : length text ≡ 20 = length-padded 19 id (omega arith) in
    let front : take (length (text ++ sstable_file_ext) - 4) (text ++ sstable_file_ext) ≡ text =
      rw (length-append text sstable_file_ext, l)
        (subst (λ n. take n (text ++ sstable_file_ext) ≡ text) l
          (take-append_length text sstable_file_ext)) in
    rw
      (
        front,
        ext-append text,
        l,
        all_digits-padded 20 id,
        value_from-padded 20 id,
        lt→ltb id (2 ^ 64) h,
      )
      refl
