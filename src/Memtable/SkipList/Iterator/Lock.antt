-- ===== src/Memtable/SkipList/Iterator/Lock.antt =====
-- A session with an iterator: moves in any order, then Close.
use beachdb.Prelude.{
  ℕ, ◌+◌, ◌≡◌, refl, subst, arith, false, List, [], ◌∷◌, Bytes, none, ok, ◌>>=◌, if◌then◌else◌,
}
use beachdb.Memtable.SkipList.{SkipList, Run}
use beachdb.Memtable.SkipList.Towers.{Tower, places}
use beachdb.Memtable.SkipList.Valid.{Links, split, IsValid}
use beachdb.Memtable.SkipList.Relink.{first}
use beachdb.Memtable.SkipList.Iterator.{
  SkipListIterator, new_skip_list_iterator, seek_to_first, seek, seek_key, next, close,
}
use beachdb.Memtable.SkipList.Iterator.Collect.{
  Stands, moved, seek_to_first-Stands, seek-Stands, next-Stands, list_of-some,
}

-- What a user calls between NewIterator and Close.
pub data Move : Type 0 where
  to_first on : Move
  to : Bytes → Move

abbrev pub make_move : Move → SkipListIterator → Run SkipListIterator
make_move to_first it = seek_to_first it
make_move on it = next it
make_move (to target) it = seek target it

unfoldable pub make_moves : List Move → SkipListIterator → Run SkipListIterator
make_moves [] it = ok it
make_moves (m ∷ ms) it = make_move m it >>= make_moves ms

module _ (sl : SkipList) (n : ℕ) (ts : List Tower) (v : Links sl ts) where
  abbrev Lands : Run SkipListIterator → Type 0
  Lands r = (it : SkipListIterator) × (us : List Tower) × (r ≡ ok it) × Stands sl n it us

  next_end : (it : SkipListIterator) → it.node ≡ none → next it ≡ ok it
  unfolding next
  next_end it e = ground arith

  make_move-Stands :
      (m : Move) (it : SkipListIterator) (us : List Tower)
      → Stands sl n it us
      → Lands (make_move m it)
  make_move-Stands to_first it us s =
      let (run, s') = seek_to_first-Stands sl n ts v it s.list_is s.held in
      (moved n it (first (places ts)), ts, run, s')
  make_move-Stands on it [] s = (it, [], next_end it s.node_is, s)
  make_move-Stands on it (u ∷ us) s =
      let (run, s') = next-Stands sl n it u us s in
      (record it { node = first (places us) }, us, run, s')
  make_move-Stands (to target) it us s =
      let (ps, as', e, before, behind) = split sl.heap (seek_key target) ts v.loaded v.sorted in
      let (run, s') =
        seek-Stands sl n target ps as' (subst (Links sl) e v) it s.list_is s.held before behind in
      (moved n it (first (places as')), as', run, s')

  make_moves-Stands :
      (ms : List Move) (it : SkipListIterator) (us : List Tower)
      → Stands sl n it us
      → Lands (make_moves ms it)
  unfolding make_moves
  make_moves-Stands [] it us s = (it, us, refl, s)
  make_moves-Stands (m ∷ ms) it us s =
      let (it', us', run, s') = make_move-Stands m it us s in
      let (it'', us'', runs, s'') = make_moves-Stands ms it' us' s' in
      (it'', us'', rw (run, ◌>>=◌) runs, s'')

  close-Stands :
      (it : SkipListIterator) (us : List Tower)
      → Stands sl n it us
      → close it ≡ ok (record it { list = none; node = none; locked = false; readers = n })
  unfolding close
  close-Stands it us s = ground (arith, s.held, list_of-some sl n it s.list_is)

-- Whatever moves a user makes on a new iterator of a valid skip list, none of them panics, the
-- iterator holds the read lock once or not at all, as its flag says, and Close gives back exactly
-- what it holds.
pub session-readers :
    (sl : SkipList) (n : ℕ) (ms : List Move)
    → IsValid sl
    → (it : SkipListIterator) × (it' : SkipListIterator) × (make_moves ms
          (new_skip_list_iterator sl n)
        ≡ ok it)
      × (it.readers ≡ n + (if it.locked then 1 else 0))
      × (close it ≡ ok it')
      × (it'.readers ≡ n)
      × (it'.locked ≡ false)
unfolding new_skip_list_iterator
session-readers sl n ms (ts, v) =
    let begin : Stands sl n (new_skip_list_iterator sl n) [] = record {
      list_is = refl;
      node_is = refl;
      loaded = tt;
      follows = tt;
      held = omega arith;
    } in
    let (it, us, run, s) = make_moves-Stands sl n ts v ms (new_skip_list_iterator sl n) [] begin in
    (
      it,
      record it { list = none; node = none; locked = false; readers = n },
      run,
      s.held,
      close-Stands sl n ts v it us s,
      refl,
      refl,
    )
