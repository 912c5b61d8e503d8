-- ===== src/Memtable/SkipList/Iterator/Collect.antt =====
-- The iterator of a valid skip list: what it visits, and that it does not panic.
use beachdb.Prelude.{
  ℕ, zero, suc, ◌+◌, ◌≡◌, refl, ap, arith, true, List, [], ◌∷◌, ◌++◌, Bytes, Option, some, ok,
  ◌>>=◌, if◌then◌else◌, All, All-right, length, ◌<◌,
}
use beachdb.Sstable.Block.{BlockEntry}
use beachdb.Memtable.SkipList.{SkipList, Heap, head}
use beachdb.Memtable.SkipList.Towers
use beachdb.Memtable.SkipList.Towers.{Tower, places, entries_of, Chain}
use beachdb.Memtable.SkipList.Wired.{entry_at}
use beachdb.Memtable.SkipList.Search.{IsBefore, IsBehind, node_at}
use beachdb.Memtable.SkipList.Valid.{Links}
use beachdb.Memtable.SkipList.Relink.{first, Chain-first}
use beachdb.Memtable.SkipList.Get.{Chain-behind, first_at_least-Links}
use beachdb.Memtable.SkipList.Iterator.{
  SkipListIterator, list_of, acquire_lock, seek_to_first, seek, seek_key, valid, next, key, value,
  collect,
}

-- From the first of the nodes on, each points to the next one.
abbrev pub Follows : Heap → List Tower → Type 0
Follows h [] = Unit
Follows h (t ∷ ts) = Chain h 0 t.place (places ts)

Follows-of_Chain : (h : Heap) (d : ℕ) (ts : List Tower) → Chain h 0 d (places ts) → Follows h ts
Follows-of_Chain h d [] c = tt
Follows-of_Chain h d (t ∷ ts) (e, c) = c

-- The iterator is at the first of the nodes `ts` of the list, or at its end if there are none, and
-- holds the lock once if it says so, where `n` readers hold it besides.
pub record Stands (sl : SkipList) (n : ℕ) (it : SkipListIterator) (ts : List Tower) : Type 0 where
  pub list_is : it.list ≡ some sl
  pub node_is : it.node ≡ first (places ts)
  pub loaded : All (λ t. entry_at sl.heap t.place ≡ ok t.entry) ts
  pub follows : Follows sl.heap ts
  pub held : it.readers ≡ n + (if it.locked then 1 else 0)

-- The iterator after a seek.
abbrev pub moved : ℕ → SkipListIterator → Option ℕ → SkipListIterator
moved n it node = record it { node = node; readers = n + 1; locked = true }

module _ (sl : SkipList) (n : ℕ) where
  pub list_of-some : (it : SkipListIterator) → it.list ≡ some sl → list_of it ≡ ok sl
  unfolding list_of
  list_of-some it e = rw e refl

  acquire_lock-held :
      (it : SkipListIterator)
      → it.list ≡ some sl
      → it.readers ≡ n + (if it.locked then 1 else 0)
      → acquire_lock it ≡ ok (record it { readers = n + 1; locked = true })
  unfolding acquire_lock
  acquire_lock-held it e held = ground (arith, held, list_of-some it e)

  pub next-Stands :
      (it : SkipListIterator) (t : Tower) (ts : List Tower)
      → Stands sl n it (t ∷ ts)
      → (next it ≡ ok (record it { node = first (places ts) }))
        × Stands sl n (record it { node = first (places ts) }) ts
  unfolding next
  next-Stands it t ts s = (
    rw
        (
          s.node_is,
          next,
          list_of-some it s.list_is,
          Chain-first sl.heap 0 t.place (places ts) s.follows,
          ◌>>=◌,
        )
        refl,
    record {
      list_is = s.list_is;
      node_is = refl;
      loaded = s.loaded.1;
      follows = Follows-of_Chain sl.heap t.place ts s.follows;
      held = s.held;
    },
  )

  entry-Stands :
      (it : SkipListIterator) (t : Tower) (ts : List Tower)
      → Stands sl n it (t ∷ ts)
      → (valid it ≡ true) × (key it ≡ ok t.entry.key) × (value it ≡ ok t.entry.value)
  unfolding valid key value list_of
  entry-Stands it t ts s =
      let (node, here, same) = node_at sl.heap t.place t.entry s.loaded.0 in
      (
        rw (s.node_is) refl,
        rw (s.node_is, key, list_of-some it s.list_is, here, ◌>>=◌)
            (ap (λ (x : BlockEntry). ok x.key) same),
        rw (s.node_is, value, list_of-some it s.list_is, here, ◌>>=◌)
            (ap (λ (x : BlockEntry). ok x.value) same),
      )

  -- The loop visits the entries of the nodes ahead, in their order.
  pub collect-Stands :
      (fuel : ℕ) (it : SkipListIterator) (ts : List Tower)
      → length ts < fuel
      → Stands sl n it ts
      → collect fuel it ≡ ok (entries_of ts)
  unfolding collect
  collect-Stands zero it ts lt s = absurd (omega arith)
  collect-Stands (suc fuel) it [] lt s = rw (s.node_is, valid, ◌>>=◌) refl
  collect-Stands (suc fuel) it (t ∷ ts) lt s =
      let (there, is_key, is_value) = entry-Stands it t ts s in
      let (on, s') = next-Stands it t ts s in
      rw
        (
          there,
          is_key,
          is_value,
          on,
          collect-Stands fuel (record it { node = first (places ts) }) ts (omega arith) s',
          ◌>>=◌,
          collect,
        )
        refl

  module _ (ts : List Tower) (v : Links sl ts) (it : SkipListIterator) (list_is : it.list ≡ some sl)
      (held : it.readers ≡ n + (if it.locked then 1 else 0)) where
    -- SeekToFirst stands at the first node, Seek at the first that is not before its key.
    pub seek_to_first-Stands :
        (seek_to_first it ≡ ok (moved n it (first (places ts))))
        × Stands sl n (moved n it (first (places ts))) ts
    unfolding seek_to_first
    seek_to_first-Stands =
        let lowest : Chain sl.heap 0 head (places ts) = Chain-behind sl (seek_key []) [] ts v in
        (
          rw
              (
                acquire_lock-held it list_is held,
                list_of-some (record it { readers = n + 1; locked = true }) list_is,
                Chain-first sl.heap 0 head (places ts) lowest,
                ◌>>=◌,
              )
              refl,
          record {
            list_is = list_is;
            node_is = refl;
            loaded = v.loaded;
            follows = Follows-of_Chain sl.heap head ts lowest;
            held = refl;
          },
        )

  module _ (target : Bytes) (ps as' : List Tower) (v : Links sl (ps ++ as')) (it : SkipListIterator)
      (list_is : it.list ≡ some sl) (held : it.readers ≡ n + (if it.locked then 1 else 0)) where
    pub seek-Stands :
        All (IsBefore sl.heap (seek_key target)) ps
        → All (IsBehind sl.heap (seek_key target)) as'
        → (seek target it ≡ ok (moved n it (first (places as'))))
          × Stands sl n (moved n it (first (places as'))) as'
    unfolding seek
    seek-Stands before behind = (
      rw
          (
            acquire_lock-held it list_is held,
            list_of-some (record it { readers = n + 1; locked = true }) list_is,
            first_at_least-Links sl (seek_key target) ps as' v before behind,
            ◌>>=◌,
          )
          refl,
      record {
        list_is = list_is;
        node_is = refl;
        loaded = All-right (λ t. entry_at sl.heap t.place ≡ ok t.entry) ps as' v.loaded;
        follows =
            Follows-of_Chain sl.heap (Towers.last head (Towers.at_level 0 ps)) as'
              (Chain-behind sl (seek_key target) ps as' v);
        held = refl;
      },
    )
