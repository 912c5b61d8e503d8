-- ===== src/Memtable/SkipList/Wired.antt =====
-- What Put's writes change in the heap: one pointer of one tower each, and no entry.
use beachdb.Prelude.{
  ℕ, zero, suc, ◌+◌, ◌≡◌, ◌≢◌, refl, sym, ◌∙◌, ap, arith, List, [], ◌∷◌, Option, none, some, set,
  index, ok, panic, ◌>>=◌, ◌≤◌, ◌<◌,
}
use native.Mathlib.Decide.{ℕ_discrete}
use beachdb.Sstable.Block.{BlockEntry}
use beachdb.Memtable.SkipList.{Node, Heap, Run, write, load, next_at, set_next, entry_of, wire}

-- The entry at an address.
unfoldable pub entry_at : Heap → ℕ → Run BlockEntry
unfolding load
entry_at h p = load h p >>= λ n. ok (entry_of n)

module _ {A : Type 0} where
  pub index-set_self :
      (xs : List A) (i : ℕ) (v w : A)
      → index {E = ⊥} xs i ≡ ok w
      → index {E = ⊥} (set xs i v) i ≡ ok v
  index-set_self [] i v w e = cc
  index-set_self (x ∷ xs) zero v w e = refl
  index-set_self (x ∷ xs) (suc i) v w e = index-set_self xs i v w e

  pub index-set_other :
      (xs : List A) (i j : ℕ) (v : A) → j ≢ i → index {E = ⊥} (set xs i v) j ≡ index xs j
  index-set_other [] i j v n = refl
  index-set_other (x ∷ xs) zero zero v n = absurd (n refl)
  index-set_other (x ∷ xs) zero (suc j) v n = refl
  index-set_other (x ∷ xs) (suc i) zero v n = refl
  index-set_other (x ∷ xs) (suc i) (suc j) v n = index-set_other xs i j v (λ e. n (ap suc e))

-- The heap `h'` is `h` with `next[l]` of the node at `p` set to `v`.
pub record Set (h h' : Heap) (p l : ℕ) (v : Option ℕ) : Type 0 where
  pub there : next_at h' p l ≡ ok v
  pub elsewhere : (x j : ℕ) → ¬ ((x ≡ p) × (j ≡ l)) → next_at h' x j ≡ next_at h x j
  pub entries : (x : ℕ) → entry_at h' x ≡ entry_at h x

-- The node that an address leads to, where a pointer of its tower can be read.
node_there :
    (h : Heap) (p l : ℕ) (w : Option ℕ)
    → next_at h p l ≡ ok w
    → (n : Node) × (h p ≡ some n) × (index {E = ⊥} n.next l ≡ ok w)
unfolding next_at
node_there h p l w e = here (h p) e
  where
    here :
        (r : Option Node)
        → ((elim r [ none ↦ panic | some n ↦ ok n ]) >>= λ (n : Node). index {E = ⊥} n.next l)
          ≡ ok w
        → (n : Node) × (r ≡ some n) × (index {E = ⊥} n.next l ≡ ok w)
    here none k = cc
    here (some n) k = (n, refl, k)

pub write_same : (h : Heap) (p : ℕ) (n : Node) → write h p n p ≡ some n
write_same h p n = ground arith

pub write_other : (h : Heap) (p : ℕ) (n : Node) (x : ℕ) → x ≢ p → write h p n x ≡ h x
write_other h p n x e = ground arith

pub next_at-some : (h : Heap) (p l : ℕ) (n : Node) → h p ≡ some n → next_at h p l ≡ index n.next l
unfolding next_at
next_at-some h p l n e = rw (e, next_at, load, ◌>>=◌) refl

pub next_at-same : (h h' : Heap) (p l : ℕ) → h p ≡ h' p → next_at h p l ≡ next_at h' p l
unfolding next_at
next_at-same h h' p l e = rw (e, next_at, load, ◌>>=◌) refl

pub entry_at-some : (h : Heap) (p : ℕ) (n : Node) → h p ≡ some n → entry_at h p ≡ ok (entry_of n)
unfolding entry_at
entry_at-some h p n e = rw (e, entry_at, load, ◌>>=◌) refl

pub entry_at-same : (h h' : Heap) (p : ℕ) → h p ≡ h' p → entry_at h p ≡ entry_at h' p
unfolding entry_at
entry_at-same h h' p e = rw (e, entry_at, load, ◌>>=◌) refl

module _ (h : Heap) (p l : ℕ) (v : Option ℕ) (n : Node) (at : h p ≡ some n) where
  written : Heap
  written = write h p (record n { next = set n.next l v })

  set_next-runs : (w : Option ℕ) → index {E = ⊥} n.next l ≡ ok w → set_next h p l v ≡ ok written
  unfolding set_next written
  set_next-runs w e = rw (at, set_next, load, ◌>>=◌, e) refl

  written-Set : (w : Option ℕ) → index {E = ⊥} n.next l ≡ ok w → Set h written p l v
  unfolding written
  written-Set w e = record {
    there =
        next_at-some written p l (record n { next = set n.next l v }) (write_same h p _)
        ∙ index-set_self n.next l v w e;
    elsewhere = λ x j other. elim (ℕ_discrete x p) [
      | no ne ↦ next_at-same written h x j (write_other h p _ x ne)
      | yes same ↦ rw same (
          next_at-some written p j (record n { next = set n.next l v }) (write_same h p _)
          ∙ index-set_other n.next l j v (λ eq. other (same, eq))
          ∙ sym (next_at-some h p j n at))
    ];
    entries = λ x. elim (ℕ_discrete x p) [
      | no ne ↦ entry_at-same written h x (write_other h p _ x ne)
      | yes same ↦
          rw same (entry_at-some written p _ (write_same h p _) ∙ sym (entry_at-some h p n at))
    ];
  }

-- An assignment to a pointer that can be read succeeds.
pub set_next-Set :
    (h : Heap) (p l : ℕ) (v w : Option ℕ)
    → next_at h p l ≡ ok w
    → (h' : Heap) × (set_next h p l v ≡ ok h') × Set h h' p l v
set_next-Set h p l v w e =
    let (n, at, here) = node_there h p l w e in
    (written h p l v n at, set_next-runs h p l v n at w here, written-Set h p l v n at w here)

-- The heap `h'` is `h` with the node at `new` linked, on the levels from `i` on, between `c l` and
-- what followed it.
pub record Wired (h h' : Heap) (new : ℕ) (c : ℕ → ℕ) (w : ℕ → Option ℕ) (i rounds : ℕ)
    : Type 0 where
  pub pointers :
      (l : ℕ)
      → i ≤ l
      → l < i + rounds
      → (next_at h' new l ≡ ok (w l)) × (next_at h' (c l) l ≡ ok (some new))
  pub frame :
      (x l : ℕ) → (i ≤ l → l < i + rounds → (x ≢ new) × (x ≢ c l)) → next_at h' x l ≡ next_at h x l
  pub entries : (x : ℕ) → entry_at h' x ≡ entry_at h x

module _ (new : ℕ) (c : ℕ → ℕ) (w : ℕ → Option ℕ) where
  Wired-step :
      (h h1 h2 h' : Heap) (i rounds : ℕ)
      → c i ≢ new
      → Set h h1 new i (w i)
      → Set h1 h2 (c i) i (some new)
      → Wired h2 h' new c w (i + 1) rounds
      → Wired h h' new c w i (suc rounds)
  Wired-step h h1 h2 h' i rounds ne s t r = record {
    pointers = λ l lo hi. elim (ℕ_discrete l i) [
      | no n ↦ r.pointers l (omega arith) (omega arith)
      | yes e ↦ rw e (
        r.frame new i (λ p q. absurd (omega arith))
            ∙ t.elsewhere new i (λ (same, _). ne (sym same))
            ∙ s.there,
        r.frame (c i) i (λ p q. absurd (omega arith)) ∙ t.there,
      )
    ];
    frame = λ x l k.
        r.frame x l (λ p q. k (omega arith) (omega arith))
        ∙ t.elsewhere x l (λ (p, q). (k (omega (arith, q)) (omega (arith, q))).1 (p ∙ ap c (sym q)))
        ∙ s.elsewhere x l (λ (p, q). (k (omega (arith, q)) (omega (arith, q))).0 p);
    entries = λ x. r.entries x ∙ t.entries x ∙ s.entries x;
  }

  module _ (u : ℕ → Option ℕ) (preds : List ℕ) where
    abbrev pub IsReady : Heap → ℕ → Type 0
    IsReady h l =
        (index {E = ⊥} preds l ≡ ok (c l))
        × (c l ≢ new)
        × (next_at h (c l) l ≡ ok (w l))
        × (next_at h new l ≡ ok (u l))

    wire-suc :
        (rounds i : ℕ) (h h1 h2 : Heap)
        → IsReady h i
        → set_next h new i (w i) ≡ ok h1
        → set_next h1 (c i) i (some new) ≡ ok h2
        → wire (suc rounds) i new preds h ≡ wire rounds (i + 1) new preds h2
    unfolding wire
    wire-suc rounds i h h1 h2 (p, _, n, _) a b = rw (p, n, a, b) refl

    -- The loop of Put links the new node on every level it covers.
    pub wire-Wired :
        (rounds i : ℕ) (h : Heap)
        → ((l : ℕ) → i ≤ l → l < i + rounds → IsReady h l)
        → (h' : Heap) × (wire rounds i new preds h ≡ ok h') × Wired h h' new c w i rounds
    unfolding wire
    wire-Wired zero i h ready = (
      h,
      refl,
      record {
        pointers = λ l p q. absurd (omega arith);
        frame = λ x l k. refl;
        entries = λ x. refl;
      },
    )
    wire-Wired (suc rounds) i h ready =
        let (p, ne, n, m) = ready i (omega arith) (omega arith) in
        let (h1, run1, s) = set_next-Set h new i (w i) (u i) m in
        let (h2, run2, t) =
          set_next-Set h1 (c i) i (some new) (w i) (s.elsewhere (c i) i (λ (e, _). ne e) ∙ n) in
        let (h', run, r) = wire-Wired rounds (i + 1) h2 (λ l lo hi.
          ready_on h h1 h2 i s t l (omega arith) (ready l (omega arith) (omega arith))) in
        (
          h',
          wire-suc rounds i h h1 h2 (ready i (omega arith) (omega arith)) run1 run2 ∙ run,
          Wired-step h h1 h2 h' i rounds ne s t r,
        )
      where
        ready_on :
            (h h1 h2 : Heap) (i : ℕ)
            → Set h h1 new i (w i)
            → Set h1 h2 (c i) i (some new)
            → (l : ℕ) → i < l
            → IsReady h l
            → IsReady h2 l
        ready_on h h1 h2 i s t l lt (p, ne, n, m) = (
          p,
          ne,
          t.elsewhere (c l) l (λ (_, e). absurd (omega (arith, e)))
              ∙ s.elsewhere (c l) l (λ (_, e). absurd (omega (arith, e)))
              ∙ n,
          t.elsewhere new l (λ (_, e). absurd (omega (arith, e)))
              ∙ s.elsewhere new l (λ (_, e). absurd (omega (arith, e)))
              ∙ m,
        )
