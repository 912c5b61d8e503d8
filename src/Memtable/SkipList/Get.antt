-- ===== src/Memtable/SkipList/Get.antt =====
-- Get on a valid skip list: the answer of a lookup in its entries, and no panic.
use beachdb.Prelude.{
  ℕ, ◌≡◌, refl, sym, ◌∙◌, ap, subst, arith, List, [], ◌∷◌, ◌++◌, some, Bytes, All, All-right, ok,
  index, ◌>>=◌, ◌≤◌,
}
use beachdb.Keys.{InternalKey}
use beachdb.Sstable.Block.{BlockEntry}
use beachdb.Memtable.{lookup, check_node, search_key}
use beachdb.Memtable.Sorted.{lookup_ge}
use beachdb.Memtable.SkipList.{SkipList, head, get, first_at_least, check_found}
use beachdb.Memtable.SkipList.Towers
use beachdb.Memtable.SkipList.Towers.{Tower, places, entries_of, at_level, Chain, last}
use beachdb.Memtable.SkipList.Wired.{entry_at}
use beachdb.Memtable.SkipList.Search.{IsBefore, IsBehind, node_at}
use beachdb.Memtable.SkipList.Valid.{Links, split, lookup-append}
use beachdb.Memtable.SkipList.Relink.{first, Chain-first, find_predecessors-HasPreds}

pub entries_of-append :
    (ts us : List Tower) → entries_of (ts ++ us) ≡ entries_of ts ++ entries_of us
entries_of-append [] us = refl
entries_of-append (t ∷ ts) us = ap (λ r. t.entry ∷ r) (entries_of-append ts us)

module _ (sl : SkipList) (key : InternalKey) (ps as' : List Tower) (v : Links sl (ps ++ as')) where
  -- The lowest level runs through all nodes.
  pub Chain-behind : Chain sl.heap 0 (last head (at_level 0 ps)) (places as')
  Chain-behind =
      let flat : All (λ t. 1 ≤ t.height) as' = All-right (λ t. 1 ≤ t.height) ps as' v.not_flat in
      subst (Chain sl.heap 0 (last head (at_level 0 ps))) (Towers.at_level_zero as' flat) (
        Towers.Chain-right sl.heap 0 head (at_level 0 ps) (at_level 0 as') (
          subst (Chain sl.heap 0 head) (Towers.at_level-append 0 ps as')
            (v.chains 0 (omega arith))))

  pub first_at_least-Links :
      All (IsBefore sl.heap key) ps
      → All (IsBehind sl.heap key) as'
      → first_at_least sl key ≡ ok (first (places as'))
  unfolding first_at_least
  first_at_least-Links before behind =
      let (preds, found, has) = find_predecessors-HasPreds sl key ps as' v before behind in
      let pred : index {E = ⊥} preds 0 ≡ ok (last head (at_level 0 ps)) =
        has 0 (omega arith) (omega arith) in
      rw (found, pred, ◌>>=◌)
        (Chain-first sl.heap 0 (last head (at_level 0 ps)) (places as') Chain-behind)

module _ (sl : SkipList) (user_key : Bytes) (seqno : ℕ) where
  check_found-entry :
      (p : ℕ) (e : BlockEntry)
      → entry_at sl.heap p ≡ ok e
      → check_found sl user_key seqno (some p) ≡ ok (check_node e user_key seqno)
  unfolding check_found
  check_found-entry p e k =
      let (n, here, same) = node_at sl.heap p e k in
      rw (here, ◌>>=◌) (ap (λ x. ok (check_node x user_key seqno)) same)

  check_found-lookup :
      (as' : List Tower)
      → All (IsBehind sl.heap (search_key user_key seqno)) as'
      → check_found sl user_key seqno (first (places as'))
        ≡ ok (lookup (entries_of as') user_key seqno)
  unfolding check_found lookup
  check_found-lookup [] h = refl
  check_found-lookup (t ∷ ts) ((at, ge), h) =
      check_found-entry t.place t.entry at
      ∙ ap ok (sym (lookup_ge user_key seqno t.entry (entries_of ts) ge))

  -- Get on a valid skip list gives what a lookup in its entries gives.
  pub get-Links :
      (ts : List Tower)
      → Links sl ts
      → get user_key seqno sl ≡ ok (lookup (entries_of ts) user_key seqno)
  unfolding get
  get-Links ts v =
      let key = search_key user_key seqno in
      let (ps, as', e, before, behind) = split sl.heap key ts v.loaded v.sorted in
      let v' : Links sl (ps ++ as') = subst (Links sl) e v in
      rw (first_at_least-Links sl key ps as' v' before behind, ◌>>=◌)
        (check_found-lookup as' behind
          ∙ ap ok (
              sym (
                ap (λ us. lookup (entries_of us) user_key seqno) e
                ∙ ap (λ es. lookup es user_key seqno) (entries_of-append ps as')
                ∙ lookup-append sl.heap key user_key seqno ps (entries_of as') refl before)))
