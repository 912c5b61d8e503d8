-- ===== src/Memtable/SkipList/Relink.antt =====
-- The heap after Put has linked a node at the place that findPredecessors found, level by level.
use beachdb.Prelude.{
  ℕ, ◌+◌, ◌≡◌, ◌≢◌, refl, sym, ◌∙◌, subst, arith, List, [], ◌∷◌, ◌++◌, Option, none, some, Bytes,
  All, All-map, All-left, length-append, replicate, ok, ◌≤◌, ◌<◌, inl, inr, Bool-cases, ltb, true,
  false,
}
use beachdb.Keys.{InternalKey}
use beachdb.Sstable.Block.{BlockEntry}
use beachdb.Memtable.SkipList.{
  SkipList, Node, Heap, head, max_level, next_at, write, find_predecessors,
}
use beachdb.Memtable.SkipList.Towers
use beachdb.Memtable.SkipList.Towers.{Tower, places, entries_of, at_level, last, Chain, Distinct}
use beachdb.Memtable.SkipList.Wired.{
  entry_at, Wired, IsReady, write_same, write_other, next_at-some, next_at-same, entry_at-same,
}
use beachdb.Memtable.SkipList.Search.{IsBefore, IsBehind}
use beachdb.Memtable.SkipList.Descent.{HasPreds, descend-HasPreds}
use beachdb.Memtable.SkipList.Valid.{Links, index-replicate}

-- The first node of a level.
abbrev pub first : List ℕ → Option ℕ
first [] = none
first (x ∷ xs) = some x

pub Chain-first :
    (h : Heap) (l d : ℕ) (xs : List ℕ) → Chain h l d xs → next_at h d l ≡ ok (first xs)
Chain-first h l d [] c = c
Chain-first h l d (x ∷ xs) (e, c) = e

-- findPredecessors succeeds, and names the last node before the key on every level.
pub find_predecessors-HasPreds :
    (sl : SkipList) (key : InternalKey) (ps as' : List Tower)
    → Links sl (ps ++ as')
    → All (IsBefore sl.heap key) ps
    → All (IsBehind sl.heap key) as'
    → (preds : List ℕ) × (find_predecessors sl key ≡ ok preds)
      × HasPreds sl.heap key ps as' preds 0 max_level
unfolding find_predecessors
find_predecessors-HasPreds sl key ps as' v before behind =
    descend-HasPreds sl.heap key ps as' (sl.length + 1) max_level max_level head ps
      (replicate max_level head) (λ l lt. (head, index-replicate max_level l head lt))
      (omega (arith, v.counted, length-append ps as')) behind before (λ l lt. (v.chains l lt, refl))
      (λ l lo hi. absurd (omega arith))

module _ (sl : SkipList) (key : InternalKey) (value : Bytes) (ps as' : List Tower)
    (v : Links sl (ps ++ as')) (before : All (IsBefore sl.heap key) ps)
    (behind : All (IsBehind sl.heap key) as') (node_level drawn : ℕ) (pos : 1 ≤ node_level)
    (most : node_level ≤ max_level) where
  abbrev pub new_entry : BlockEntry
  new_entry = record { key = key; value = value }

  abbrev pub new_node : Node
  new_node = record { key = key; value = value; next = replicate node_level none }

  abbrev pub new_tower : Tower
  new_tower = record { place = sl.fresh; height = node_level; entry = new_entry }

  abbrev pub start : Heap
  start = write sl.heap sl.fresh new_node

  abbrev pub pred : ℕ → ℕ
  pred l = last head (at_level l ps)

  abbrev pub succ : ℕ → Option ℕ
  succ l = first (at_level l as')

  head_allocated : head < sl.fresh
  head_allocated = v.allocated.0

  pred_allocated : (l : ℕ) → pred l < sl.fresh
  pred_allocated l =
      Towers.last-All (λ p. p < sl.fresh) head (at_level l ps)
        (
          head_allocated,
          Towers.All-at_level (λ p. p < sl.fresh) l ps
              (All-left (λ p. p < sl.fresh) (places ps) (places as')
                (subst (All (λ p. p < sl.fresh)) (Towers.places-append ps as') v.allocated.1)),
        )

  Chain-at : (l : ℕ) → l < max_level → Chain sl.heap l head (at_level l ps ++ at_level l as')
  Chain-at l lt = subst (Chain sl.heap l head) (Towers.at_level-append l ps as') (v.chains l lt)

  next_pred : (l : ℕ) → l < max_level → next_at sl.heap (pred l) l ≡ ok (succ l)
  next_pred l lt =
      Chain-first sl.heap l (pred l) (at_level l as')
        (Towers.Chain-right sl.heap l head (at_level l ps) (at_level l as') (Chain-at l lt))

  start_next : (x l : ℕ) → x < sl.fresh → next_at start x l ≡ next_at sl.heap x l
  start_next x l lt =
      next_at-same start sl.heap x l
        (write_other sl.heap sl.fresh new_node x (λ e. absurd (omega (arith, e))))

  pub start_entry : (x : ℕ) → x < sl.fresh → entry_at start x ≡ entry_at sl.heap x
  start_entry x lt =
      entry_at-same start sl.heap x
        (write_other sl.heap sl.fresh new_node x (λ e. absurd (omega (arith, e))))

  pub start-IsReady :
      (preds : List ℕ)
      → HasPreds sl.heap key ps as' preds 0 max_level
      → (l : ℕ) → 0 ≤ l
      → l < 0 + node_level
      → IsReady sl.fresh pred succ (λ _. none) preds start l
  start-IsReady preds has l lo hi = (
    has l lo (omega arith),
    λ e. absurd (omega (arith, pred_allocated l, e)),
    start_next (pred l) l (pred_allocated l) ∙ next_pred l (omega arith),
    next_at-some start sl.fresh l new_node (write_same sl.heap sl.fresh new_node)
        ∙ index-replicate node_level l none (omega arith),
  )

  All-allocated : (l : ℕ) → All (λ p. p < sl.fresh) (head ∷ (at_level l ps ++ at_level l as'))
  All-allocated l = (
    head_allocated,
    subst (All (λ p. p < sl.fresh)) (Towers.at_level-append l ps as')
        (Towers.All-at_level (λ p. p < sl.fresh) l (ps ++ as') v.allocated.1),
  )

  Distinct-at : (l : ℕ) → Distinct (head ∷ (at_level l ps ++ at_level l as'))
  Distinct-at l = (
    subst (All (λ y. head ≢ y)) (Towers.at_level-append l ps as')
        (Towers.All-at_level (λ y. head ≢ y) l (ps ++ as') v.distinct.0),
    subst Distinct (Towers.at_level-append l ps as')
        (Towers.Distinct-at_level l (ps ++ as') v.distinct.1),
  )

  module _ (heap : Heap) (w : Wired start heap sl.fresh pred succ 0 node_level) where
    kept_next :
        (x l : ℕ)
        → x < sl.fresh
        → (l < node_level → x ≢ pred l)
        → next_at heap x l ≡ next_at sl.heap x l
    kept_next x l lt ne =
        w.frame x l (λ lo hi. (λ e. absurd (omega (arith, e)), ne (omega arith)))
        ∙ start_next x l lt

    Chain-low :
        (l : ℕ)
        → l < max_level
        → ltb l node_level ≡ true
        → Chain heap l head (at_level l ps ++ (sl.fresh ∷ at_level l as'))
    Chain-low l lt low =
        let hi : l < node_level = ground arith in
        let (to_succ, to_new) = w.pointers l (omega arith) (omega arith) in
        Towers.Chain-insert sl.heap heap l sl.fresh head (at_level l ps) (at_level l as')
          (Distinct-at l)
          (All-map (λ p. p < sl.fresh) (λ x. x ≢ pred l → next_at heap x l ≡ next_at sl.heap x l)
            (head ∷ (at_level l ps ++ at_level l as')) (λ x a ne. kept_next x l a (λ _. ne))
            (All-allocated l))
          to_new (to_succ ∙ sym (next_pred l lt)) (Chain-at l lt)

    Chain-high :
        (l : ℕ)
        → l < max_level
        → ltb l node_level ≡ false
        → Chain heap l head (at_level l ps ++ at_level l as')
    Chain-high l lt high =
        let hi : node_level ≤ l = ground arith in
        Towers.Chain-frame sl.heap heap l head (at_level l ps ++ at_level l as')
          (All-map (λ p. p < sl.fresh) (λ x. next_at heap x l ≡ next_at sl.heap x l)
            (head ∷ (at_level l ps ++ at_level l as'))
            (λ x a. kept_next x l a (λ q. absurd (omega arith))) (All-allocated l))
          (Chain-at l lt)

    pub Chain-after :
        (l : ℕ) → l < max_level → Chain heap l head (at_level l (ps ++ (new_tower ∷ as')))
    Chain-after l lt =
        subst (Chain heap l head) (sym (Towers.at_level-append l ps (new_tower ∷ as')))
          (elim (Bool-cases (ltb l node_level)) [
            | inl low ↦ rw low (Chain-low l lt low)
            | inr high ↦ rw high (Chain-high l lt high)
          ])
