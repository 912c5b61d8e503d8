-- ===== src/Sstable/Reader/Seek.antt =====
-- sort.Search as Reader.Get uses it: the first block that is not before the synthetic key.
use beachdb.Prelude.{
  ℕ, zero, suc, ◌+◌, ◌/◌, ◌≤◌, ◌<◌, ◌≡◌, ◌≢◌, refl, arith, Ordering, Bool, true, false, List, [],
  ◌∷◌, All, some, inl, inr, Bool-cases, ltb, length,
}
use beachdb.Keys.{InternalKey, compare_keys}
use beachdb.Keys.Order.{compare_keys_trans}
use beachdb.Sstable.Index.{IndexEntry}
use beachdb.Sstable.Reader.{search_range, at_least, entry_at}
use beachdb.Sstable.Reader.Scan.{KeyLt}

-- `i` is the first place where `f` holds.
pub record IsFirst (f : ℕ → Bool) (i : ℕ) : Type 0 where
  pub before : (k : ℕ) → k < i → f k ≡ false
  pub from : (k : ℕ) → i ≤ k → f k ≡ true

abbrev pub IsMonotone : (ℕ → Bool) → Type 0
IsMonotone f = (a b : ℕ) → a ≤ b → f a ≡ true → f b ≡ true

false_below : (f : ℕ → Bool) → IsMonotone f → (a b : ℕ) → a ≤ b → f b ≡ false → f a ≡ false
false_below f mono a b le h = elim (Bool-cases (f a)) [
  | inl holds ↦ cc (h, mono a b le holds)
  | inr fails ↦ fails
]

-- With as many rounds as the range is long, the binary search finds the first place where the
-- test holds.
pub search_range-IsFirst :
    (f : ℕ → Bool)
    → IsMonotone f
    → (fuel i j : ℕ) → i ≤ j
    → j ≤ i + fuel
    → ((k : ℕ) → k < i → f k ≡ false)
    → ((k : ℕ) → j ≤ k → f k ≡ true)
    → IsFirst f (search_range fuel f i j)
unfolding search_range
search_range-IsFirst f mono zero i j le enough below above = record {
  before = below;
  from = λ k h. above k (omega arith);
}
search_range-IsFirst f mono (suc fuel) i j le enough below above = elim (Bool-cases (ltb i j)) [
  | inr done ↦ rw done (record { before = below; from = λ k h. above k (ground arith) })
  | inl more ↦
      let h : ℕ = (i + j) / 2 in
      let lt : i < j = ground arith in
      elim (Bool-cases (f h)) [
        | inl holds ↦
            rw (more, holds)
              (search_range-IsFirst f mono fuel i h (omega arith) (omega arith) below
                (λ k le'. mono h k le' holds))
        | inr fails ↦
            rw (more, fails)
              (search_range-IsFirst f mono fuel (h + 1) j (omega arith) (omega arith)
                (λ k le'. false_below f mono k h (omega arith) fails) above)
      ]
]

-- The last keys of the blocks ascend.
abbrev pub IsSortedIndex : List IndexEntry → Type 0
IsSortedIndex [] = Unit
IsSortedIndex (e ∷ es) = All (λ x. KeyLt e.last_key x.last_key) es × IsSortedIndex es

module _ (key : InternalKey) where
  pub lt_of_at_least : (e : IndexEntry) → at_least key (some e) ≡ false → KeyLt e.last_key key
  unfolding at_least
  lt_of_at_least e h = ground arith

  pub ge_of_at_least :
      (e : IndexEntry) → at_least key (some e) ≡ true → compare_keys e.last_key key ≢ Ordering.lt
  unfolding at_least
  ge_of_at_least e h p = ground arith

  at_least_behind :
      (e x : IndexEntry)
      → at_least key (some e) ≡ true
      → KeyLt e.last_key x.last_key
      → at_least key (some x) ≡ true
  unfolding at_least
  at_least_behind e x h lt = ground (arith, compare_keys_trans e.last_key x.last_key key)

  at_least-entry_at :
      (e : IndexEntry) (es : List IndexEntry)
      → at_least key (some e) ≡ true
      → All (λ x. KeyLt e.last_key x.last_key) es
      → (k : ℕ) → at_least key (entry_at es k) ≡ true
  unfolding entry_at
  at_least-entry_at e [] h hs k = unfold at_least in refl
  at_least-entry_at e (x ∷ es) h (lt, hs) zero = at_least_behind e x h lt
  at_least-entry_at e (x ∷ es) h (lt, hs) (suc k) = at_least-entry_at e es h hs k

  pub at_least-IsMonotone :
      (es : List IndexEntry) → IsSortedIndex es → IsMonotone (λ k. at_least key (entry_at es k))
  unfolding entry_at
  at_least-IsMonotone [] s a b le h = unfold at_least in refl
  at_least-IsMonotone (e ∷ es) (lt, s) zero zero le h = h
  at_least-IsMonotone (e ∷ es) (lt, s) zero (suc b) le h = at_least-entry_at e es h lt b
  at_least-IsMonotone (e ∷ es) (lt, s) (suc a) zero le h = absurd (omega arith)
  at_least-IsMonotone (e ∷ es) (lt, s) (suc a) (suc b) le h =
      at_least-IsMonotone es s a b (omega arith) h

pub beyond_end :
    (key : InternalKey) (es : List IndexEntry) (k : ℕ)
    → length es ≤ k
    → at_least key (entry_at es k) ≡ true
unfolding entry_at
beyond_end key [] k le = unfold at_least in refl
beyond_end key (e ∷ es) zero le = absurd (omega arith)
beyond_end key (e ∷ es) (suc k) le = beyond_end key es k (omega arith)
