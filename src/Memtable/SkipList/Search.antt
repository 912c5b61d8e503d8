-- ===== src/Memtable/SkipList/Search.antt =====
-- The loop of findPredecessors along one level: where it goes on and where it stops.
use beachdb.Prelude.{
  ℕ, suc, ◌≡◌, ◌≢◌, refl, sym, ◌∙◌, ap, Ordering, List, [], ◌∷◌, Option, none, some, All, ok, panic,
  ◌>>=◌, ltb, inl, inr, Bool-cases,
}
use beachdb.Keys.{InternalKey, compare_keys}
use beachdb.Sstable.Block.{BlockEntry}
use beachdb.Memtable.Sorted.{match_ge}
use beachdb.Memtable.SkipList.{Node, Heap, Run, load, next_at, advance, entry_of}
use beachdb.Memtable.SkipList.Towers.{Tower, at_level, Chain}
use beachdb.Memtable.SkipList.Wired.{entry_at}

pub node_at :
    (h : Heap) (p : ℕ) (e : BlockEntry)
    → entry_at h p ≡ ok e
    → (n : Node) × (load h p ≡ ok n) × (entry_of n ≡ e)
unfolding entry_at load
node_at h p e k = here (h p) k
  where
    ok_inj : {a b : BlockEntry} → ◌≡◌ {A = Run BlockEntry} (ok a) (ok b) → a ≡ b
    ok_inj k = cc

    got : Option Node → Run Node
    got r = elim r [ none ↦ panic | some n ↦ ok n ]

    here :
        (r : Option Node)
        → ◌≡◌ {A = Run BlockEntry} (got r >>= λ n. ok (entry_of n)) (ok e)
        → (n : Node) × (got r ≡ ok n) × (entry_of n ≡ e)
    here none k = cc
    here (some n) k = (n, refl, ok_inj k)

module _ (h : Heap) (key : InternalKey) (fuel l d : ℕ) where
  advance_end : next_at h d l ≡ ok none → advance (suc fuel) h key l d ≡ ok d
  unfolding advance
  advance_end e = rw (e, advance, ◌>>=◌) refl

  module _ (x : ℕ) (e : BlockEntry) (to : next_at h d l ≡ ok (some x))
      (at : entry_at h x ≡ ok e) where
    pub advance_on :
        compare_keys e.key key ≡ Ordering.lt → advance (suc fuel) h key l d ≡ advance fuel h key l x
    unfolding advance
    advance_on lt =
        let (n, here, same) = node_at h x e at in
        let lt' : compare_keys n.key key ≡ Ordering.lt =
          ap (λ (x : BlockEntry). compare_keys x.key key) same ∙ lt in
        rw (to, here, lt', ◌>>=◌) refl

    advance_stop : compare_keys e.key key ≢ Ordering.lt → advance (suc fuel) h key l d ≡ ok d
    unfolding advance
    advance_stop ge =
        let (n, here, same) = node_at h x e at in
        let ge' : compare_keys n.key key ≢ Ordering.lt =
          λ q. ge (ap (λ (x : BlockEntry). compare_keys x.key key) (sym same) ∙ q) in
        rw (to, here, ◌>>=◌) (match_ge (compare_keys n.key key) (advance fuel h key l x) (ok d) ge')

-- The nodes before the key, the nodes behind them.
module _ (h : Heap) (key : InternalKey) where
  abbrev pub IsBefore : Tower → Type 0
  IsBefore t = (entry_at h t.place ≡ ok t.entry) × (compare_keys t.entry.key key ≡ Ordering.lt)

  abbrev pub IsBehind : Tower → Type 0
  IsBehind t = (entry_at h t.place ≡ ok t.entry) × (compare_keys t.entry.key key ≢ Ordering.lt)

  pub advance-behind :
      (fuel l d : ℕ) (ts : List Tower)
      → All IsBehind ts
      → Chain h l d (at_level l ts)
      → advance (suc fuel) h key l d ≡ ok d
  advance-behind fuel l d [] b c = advance_end h key fuel l d c
  advance-behind fuel l d (t ∷ ts) ((at, ge), bs) c = elim (Bool-cases (ltb l t.height)) [
    | inl e ↦ advance_stop h key fuel l d t.place t.entry (rw e at c).0 at ge
    | inr e ↦ advance-behind fuel l d ts bs (rw e at c)
  ]
