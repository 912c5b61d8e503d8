-- ===== src/Memtable/SkipList/Valid.antt =====
-- The invariant of a skip list, and where a key splits its nodes.
use beachdb.Prelude.{
  ℕ, zero, suc, ◌+◌, ◌*◌, ◌≡◌, refl, sym, ◌∙◌, ap, arith, List, [], ◌∷◌, ◌++◌, none, Bool, Bytes,
  All, length, replicate, index, ok, ◌≤◌, ◌<◌, inl, inr,
}
use beachdb.Keys.{InternalKey, compare_keys}
use beachdb.Keys.Order.{KeyLe, swap, compare_keys-swap, KeyLe-trans}
use beachdb.Sstable.Block.{BlockEntry}
use beachdb.Memtable.{insert_entry, lookup, search_key}
use beachdb.Memtable.Sorted.{
  IsSorted, Lt-cases, insert_entry_lt, insert_entry_ge, KeyLe-of_ge, lookup_lt,
}
use beachdb.Memtable.SkipList.{SkipList, new_skip_list, Heap, head, max_level, next_at}
use beachdb.Memtable.SkipList.Towers.{Tower, places, entries_of, at_level, Chain, Distinct}
use beachdb.Memtable.SkipList.Wired.{entry_at}
use beachdb.Memtable.SkipList.Search.{IsBefore, IsBehind}

-- `memSize` of each node.
abbrev pub tower_size : Tower → ℕ
tower_size t = length t.entry.key.user_key + length t.entry.value + 8 + 1 + t.height * 8 + 24

abbrev pub sizes : List Tower → ℕ
sizes [] = 0
sizes (t ∷ ts) = tower_size t + sizes ts

-- The heap links these nodes, in key order, on every level that their towers reach.
pub record Links (sl : SkipList) (ts : List Tower) : Type 0 where
  pub chains : (l : ℕ) → l < max_level → Chain sl.heap l head (at_level l ts)
  pub loaded : All (λ t. entry_at sl.heap t.place ≡ ok t.entry) ts
  pub not_flat : All (λ t. 1 ≤ t.height) ts
  pub not_above : All (λ t. t.height ≤ sl.level) ts
  pub distinct : Distinct (head ∷ places ts)
  pub allocated : All (λ p. p < sl.fresh) (head ∷ places ts)
  pub sorted : IsSorted (entries_of ts)
  pub counted : sl.length ≡ length ts
  pub measured : sl.size ≡ sizes ts
  pub level_pos : 1 ≤ sl.level
  pub level_max : sl.level ≤ max_level

abbrev pub IsValid : SkipList → Type 0
IsValid sl = (ts : List Tower) × Links sl ts

pub index-replicate :
    {A : Type 0} (n i : ℕ) (a : A) → i < n → index {E = ⊥} (replicate n a) i ≡ ok a
index-replicate zero i a lt = absurd (omega arith)
index-replicate (suc n) zero a lt = refl
index-replicate (suc n) (suc i) a lt = index-replicate n i a (omega arith)

pub new_skip_list-Links : (draws : ℕ → Bool) → Links (new_skip_list draws) []
unfolding new_skip_list next_at
new_skip_list-Links draws = record {
  chains = λ l lt. index-replicate max_level l none lt;
  loaded = tt;
  not_flat = tt;
  not_above = tt;
  distinct = (tt, tt);
  allocated = (omega arith, tt);
  sorted = tt;
  counted = refl;
  measured = refl;
  level_pos = omega arith;
  level_max = omega arith;
}

-- The nodes in key order, split at a key.
abbrev pub Split : Heap → InternalKey → List Tower → List Tower → List Tower → Type 0
Split h key ts ps as' = (ts ≡ ps ++ as') × All (IsBefore h key) ps × All (IsBehind h key) as'

module _ (h : Heap) (key : InternalKey) where
  IsBehind-All :
      (k : InternalKey) (ts : List Tower)
      → KeyLe key k
      → All (λ x. KeyLe k x.key) (entries_of ts)
      → All (λ t. entry_at h t.place ≡ ok t.entry) ts
      → All (IsBehind h key) ts
  IsBehind-All k [] le s l = tt
  IsBehind-All k (t ∷ ts) le (s, ss) (l, ls) = (
    (l, λ lt. KeyLe-trans key k t.entry.key le s (compare_keys-swap t.entry.key key ∙ ap swap lt)),
    IsBehind-All k ts le ss ls,
  )

  pub split :
      (ts : List Tower)
      → All (λ t. entry_at h t.place ≡ ok t.entry) ts
      → IsSorted (entries_of ts)
      → (ps : List Tower) × (as' : List Tower) × (ts ≡ ps ++ as')
        × All (IsBefore h key) ps
        × All (IsBehind h key) as'
  split [] l s = ([], [], refl, tt, tt)
  split (t ∷ ts) (l, ls) (s, ss) = elim (Lt-cases (compare_keys t.entry.key key)) [
    | inl lt ↦
        let (ps, as', e, b, f) = split ts ls ss in
        (t ∷ ps, as', ap (λ us. t ∷ us) e, ((l, lt), b), f)
    | inr ge ↦ (
      [],
      t ∷ ts,
      refl,
      tt,
      ((l, ge), IsBehind-All t.entry.key ts (KeyLe-of_ge t.entry.key key ge) s ls),
    )
  ]

  pub entries_of-insert :
      (new : Tower) (ps as' : List Tower)
      → new.entry.key ≡ key
      → All (IsBefore h key) ps
      → All (IsBehind h key) as'
      → entries_of (ps ++ (new ∷ as')) ≡ insert_entry new.entry (entries_of (ps ++ as'))
  entries_of-insert new [] [] e b f = unfold insert_entry in refl
  entries_of-insert new [] (t ∷ ts) e b ((_, ge), _) = sym (
      insert_entry_ge new.entry t.entry (entries_of ts)
        (λ q. ge (ap (compare_keys t.entry.key) (sym e) ∙ q)))
  entries_of-insert new (t ∷ ps) as' e ((_, lt), b) f =
      ap (λ es. t.entry ∷ es) (entries_of-insert new ps as' e b f)
      ∙ sym (
          insert_entry_lt new.entry t.entry (entries_of (ps ++ as'))
            (ap (compare_keys t.entry.key) e ∙ lt))

  -- A lookup of the key looks past the nodes before it.
  pub lookup-append :
      (user_key : Bytes) (seqno : ℕ) (ps : List Tower) (es : List BlockEntry)
      → key ≡ search_key user_key seqno
      → All (IsBefore h key) ps
      → lookup (entries_of ps ++ es) user_key seqno ≡ lookup es user_key seqno
  lookup-append user_key seqno [] es e b = refl
  lookup-append user_key seqno (t ∷ ps) es e ((_, lt), b) =
      lookup_lt user_key seqno t.entry (entries_of ps ++ es)
        (ap (compare_keys t.entry.key) (sym e) ∙ lt)
      ∙ lookup-append user_key seqno ps es e b
