-- ===== src/Memtable/SkipList/Iterator.antt =====
-- internal/memtable/skiplist.go: the iterator. The readers of the list's lock are counted.
pub mod Collect
pub mod Lock
use beachdb.Prelude.{
  ℕ, zero, suc, ◌+◌, ◌-◌, ◌^◌, Bool, true, false, List, [], ◌∷◌, Bytes, Option, none, some, ok,
  panic, ◌>>=◌, if◌then◌else◌, ◌==◌,
}
use beachdb.Keys.{InternalKey, kind_put}
use beachdb.Sstable.Block.{BlockEntry}
use beachdb.Memtable.SkipList.{SkipList, Run, load, head, next_at, first_at_least}

pub record SkipListIterator : Type 0 where
  pub list : Option SkipList
  pub node : Option ℕ
  pub locked : Bool
  pub readers : ℕ

unfoldable pub new_skip_list_iterator : SkipList → ℕ → SkipListIterator
new_skip_list_iterator list readers = record {
  list = some list;
  node = none;
  locked = false;
  readers = readers;
}

-- `it.list`, dereferenced.
unfoldable pub list_of : SkipListIterator → Run SkipList
list_of it = elim it.list [ none ↦ panic | some sl ↦ ok sl ]

unfoldable pub acquire_lock : SkipListIterator → Run SkipListIterator
unfolding list_of
acquire_lock it =
    if it.locked
    then ok it
    else do _ ← list_of it; ok (record it { readers = it.readers + 1; locked = true })

unfoldable pub seek_to_first : SkipListIterator → Run SkipListIterator
unfolding acquire_lock list_of
seek_to_first it = do
  it ← acquire_lock it
  sl ← list_of it
  node ← next_at sl.heap head 0
  ok (record it { node = node })

abbrev pub seek_key : Bytes → InternalKey
seek_key target = record { user_key = target; seqno = 2 ^ 64 - 1; kind = kind_put }

unfoldable pub seek : Bytes → SkipListIterator → Run SkipListIterator
unfolding acquire_lock list_of
seek target it = do
  it ← acquire_lock it
  sl ← list_of it
  node ← first_at_least sl (seek_key target)
  ok (record it { node = node })

unfoldable pub valid : SkipListIterator → Bool
valid it = elim it.node [ none ↦ false | some _ ↦ true ]

unfoldable pub next : SkipListIterator → Run SkipListIterator
unfolding list_of
next it = elim it.node [
  | none ↦ ok it
  | some p ↦ do sl ← list_of it; node ← next_at sl.heap p 0; ok (record it { node = node })
]

unfoldable pub key : SkipListIterator → Run InternalKey
unfolding list_of
key it = elim it.node [
  | none ↦ ok (record { user_key = []; seqno = 0; kind = 0 })
  | some p ↦ do sl ← list_of it; node ← load sl.heap p; ok node.key
]

unfoldable pub value : SkipListIterator → Run Bytes
unfolding list_of
value it = elim it.node [
  | none ↦ ok []
  | some p ↦ do sl ← list_of it; node ← load sl.heap p; ok node.value
]

-- RUnlock of a lock that nobody holds is fatal.
unlock : SkipListIterator → Run SkipListIterator
unfolding list_of
unlock it = do
  _ ← list_of it
  elim it.readers [
    | zero ↦ panic
    | suc readers ↦ ok (record it { readers = readers; locked = false })
  ]

unfoldable pub close : SkipListIterator → Run SkipListIterator
unfolding unlock
close it = do
  it ← if it.locked then unlock it else ok it
  ok (record it { node = none; list = none })

-- `for ; it.Valid(); it.Next()`, as the flush of a memtable reads it.
unfoldable pub collect : ℕ → SkipListIterator → Run (List BlockEntry)
unfolding valid next key value list_of
collect zero it = panic
collect (suc fuel) it = elim (valid it) [
  | false ↦ ok []
  | true ↦ do
    k ← key it
    v ← value it
    it ← next it
    rest ← collect fuel it
    ok (record { key = k; value = v } ∷ rest)
]
