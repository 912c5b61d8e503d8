-- ===== src/Memtable/SkipList/Towers.antt =====
-- The nodes of a skip list in key order, each with the height of its tower, and what it means that a
-- heap links them: level by level, a chain of forward pointers through the towers that reach it.
use beachdb.Prelude.{
  ℕ, ◌≡◌, ◌≢◌, refl, sym, ◌∙◌, arith, true, false, List, [], ◌∷◌, ◌++◌, none, some, All, All-map,
  ltb, ok, if◌then◌else◌, Bool-cases, inl, inr, ◌≤◌, ap,
}
use beachdb.Sstable.Block.{BlockEntry}
use beachdb.Memtable.SkipList.{Heap, next_at}

pub record Tower : Type 0 where
  pub place : ℕ
  pub height : ℕ
  pub entry : BlockEntry

abbrev pub places : List Tower → List ℕ
places [] = []
places (t ∷ ts) = t.place ∷ places ts

abbrev pub entries_of : List Tower → List BlockEntry
entries_of [] = []
entries_of (t ∷ ts) = t.entry ∷ entries_of ts

-- The nodes that level `l` runs through.
abbrev pub at_level : ℕ → List Tower → List ℕ
at_level l [] = []
at_level l (t ∷ ts) = let rest = at_level l ts in if ltb l t.height then t.place ∷ rest else rest

abbrev pub last : ℕ → List ℕ → ℕ
last d [] = d
last d (x ∷ xs) = last x xs

abbrev pub Chain : Heap → ℕ → ℕ → List ℕ → Type 0
Chain h l d [] = next_at h d l ≡ ok none
Chain h l d (x ∷ xs) = (next_at h d l ≡ ok (some x)) × Chain h l x xs

abbrev pub Distinct : List ℕ → Type 0
Distinct [] = Unit
Distinct (x ∷ xs) = All (λ y. x ≢ y) xs × Distinct xs

pub at_level-append :
    (l : ℕ) (ts us : List Tower) → at_level l (ts ++ us) ≡ at_level l ts ++ at_level l us
at_level-append l [] us = refl
at_level-append l (t ∷ ts) us = elim (Bool-cases (ltb l t.height)) [
  | inl e ↦ rw e (ap (λ r. t.place ∷ r) (at_level-append l ts us))
  | inr e ↦ rw e (at_level-append l ts us)
]

pub All-at_level :
    (P : ℕ → Type 0) (l : ℕ) (ts : List Tower) → All P (places ts) → All P (at_level l ts)
All-at_level P l [] h = tt
All-at_level P l (t ∷ ts) (h, hs) = elim (Bool-cases (ltb l t.height)) [
  | inl e ↦ rw e (h, All-at_level P l ts hs)
  | inr e ↦ rw e (All-at_level P l ts hs)
]

pub Distinct-at_level : (l : ℕ) (ts : List Tower) → Distinct (places ts) → Distinct (at_level l ts)
Distinct-at_level l [] h = tt
Distinct-at_level l (t ∷ ts) (h, hs) = elim (Bool-cases (ltb l t.height)) [
  | inl e ↦ rw e (All-at_level (λ y. t.place ≢ y) l ts h, Distinct-at_level l ts hs)
  | inr e ↦ rw e (Distinct-at_level l ts hs)
]

pub at_level_none : (l : ℕ) (ts : List Tower) → All (λ t. t.height ≤ l) ts → at_level l ts ≡ []
at_level_none l [] h = refl
at_level_none l (t ∷ ts) (h, hs) =
    let e : ltb l t.height ≡ false = ground arith in rw e (at_level_none l ts hs)

pub at_level_zero : (ts : List Tower) → All (λ t. 1 ≤ t.height) ts → at_level 0 ts ≡ places ts
at_level_zero [] h = refl
at_level_zero (t ∷ ts) (h, hs) =
    let e : ltb 0 t.height ≡ true = ground arith in rw (e, at_level_zero ts hs) refl

pub last-append : (d : ℕ) (xs ys : List ℕ) → last d (xs ++ ys) ≡ last (last d xs) ys
last-append d [] ys = refl
last-append d (x ∷ xs) ys = last-append x xs ys

pub Chain-right :
    (h : Heap) (l d : ℕ) (xs ys : List ℕ) → Chain h l d (xs ++ ys) → Chain h l (last d xs) ys
Chain-right h l d [] ys c = c
Chain-right h l d (x ∷ xs) ys (e, c) = Chain-right h l x xs ys c

module _ (h h' : Heap) (l : ℕ) where
  -- What a chain says of its nodes, another heap says too that has their pointers.
  pub Chain-frame :
      (d : ℕ) (xs : List ℕ)
      → All (λ x. next_at h' x l ≡ next_at h x l) (d ∷ xs)
      → Chain h l d xs
      → Chain h' l d xs
  Chain-frame d [] (e, es) c = e ∙ c
  Chain-frame d (x ∷ xs) (e, es) (p, c) = (e ∙ p, Chain-frame x xs es c)

  abbrev Others : ℕ → List ℕ → Type 0
  Others c xs = All (λ x. x ≢ c → next_at h' x l ≡ next_at h x l) xs

  others :
      (c : ℕ) (xs : List ℕ)
      → All (λ y. c ≢ y) xs
      → Others c xs
      → All (λ x. next_at h' x l ≡ next_at h x l) xs
  others c [] d o = tt
  others c (x ∷ xs) (d, ds) (o, os) = (o (λ e. d (sym e)), others c xs ds os)

  last_ne : (d x : ℕ) (xs ys : List ℕ) → All (λ y. d ≢ y) (x ∷ xs ++ ys) → d ≢ last x xs
  last_ne d x [] ys (n, ns) = n
  last_ne d x (y ∷ xs) ys (n, ns) = last_ne d y xs ys ns

  -- A node linked behind the last one of `xs`.
  pub Chain-insert :
      (new d : ℕ) (xs ys : List ℕ)
      → Distinct (d ∷ (xs ++ ys))
      → Others (last d xs) (d ∷ (xs ++ ys))
      → next_at h' (last d xs) l ≡ ok (some new)
      → next_at h' new l ≡ next_at h (last d xs) l
      → Chain h l d (xs ++ ys)
      → Chain h' l d (xs ++ (new ∷ ys))
  Chain-insert new d [] [] ds os e n c = (e, n ∙ c)
  Chain-insert new d [] (y ∷ ys) (ds, dd) (o, os) e n (p, c) =
      (e, (n ∙ p, Chain-frame y ys (others d (y ∷ ys) ds os) c))
  Chain-insert new d (x ∷ xs) ys (ds, dd) (o, os) e n (p, c) =
      (o (last_ne d x xs ys ds) ∙ p, Chain-insert new x xs ys dd os e n c)

pub last-All : (P : ℕ → Type 0) (d : ℕ) (xs : List ℕ) → All P (d ∷ xs) → P (last d xs)
last-All P d [] (h, hs) = h
last-All P d (x ∷ xs) (h, hs) = last-All P x xs hs

pub places-append : (ts us : List Tower) → places (ts ++ us) ≡ places ts ++ places us
places-append [] us = refl
places-append (t ∷ ts) us = ap (λ r. t.place ∷ r) (places-append ts us)

pub All-insert :
    (P : ℕ → Type 0) (new : ℕ) (xs ys : List ℕ)
    → P new
    → All P (xs ++ ys)
    → All P (xs ++ (new ∷ ys))
All-insert P new [] ys p h = (p, h)
All-insert P new (x ∷ xs) ys p (h, hs) = (h, All-insert P new xs ys p hs)

pub Distinct-insert :
    (new : ℕ) (xs ys : List ℕ)
    → All (λ x. x ≢ new) (xs ++ ys)
    → Distinct (xs ++ ys)
    → Distinct (xs ++ (new ∷ ys))
Distinct-insert new [] ys n d =
    (All-map (λ x. x ≢ new) (λ y. new ≢ y) ys (λ x ne e. ne (sym e)) n, d)
Distinct-insert new (x ∷ xs) ys (n, ns) (d, ds) =
    (All-insert (λ y. x ≢ y) new xs ys n d, Distinct-insert new xs ys ns ds)
