-- ===== src/Sstable/Iterator.antt =====
-- internal/sstable/iterator.go: the two-level iterator of a table. Its reader is `none` once it is
-- closed. A panic of the block decoder, which cannot happen, is passed on.
pub mod Walk
pub mod Seek
pub mod Reads
use beachdb.Prelude.{
  ℕ, zero, suc, ◌+◌, ◌-◌, Ordering, Bool, true, false, not, List, [], ◌∷◌, Bytes, Option, none,
  some, length, Result, ok, err, panic, ◌>>=◌, index, ltb, leb, ◌==◌, if◌then◌else◌,
}
use beachdb.Keys.{InternalKey, compare_bytes}
use beachdb.Sstable.Errors.{SstError, iterator_closed}
use beachdb.Sstable.Block.{BlockEntry, zero_key}
use beachdb.Sstable.Reader.{Reader, load_block_entries, seek_block}

pub record Iterator : Type 0 where
  pub reader : Option Reader
  pub block_idx : ℕ
  pub entries : List BlockEntry
  pub entry_idx : ℕ
  pub valid : Bool
  pub err : Option SstError

abbrev pub Run : Type 0 → Type 0
Run A = Result ⊥ A

unfoldable pub new_iterator : Reader → Iterator
new_iterator r = record {
  reader = some r;
  block_idx = 0;
  entries = [];
  entry_idx = 0;
  valid = false;
  err = none;
}

-- `it.valid = false; it.err = err`
abbrev pub stop : Option SstError → Iterator → Iterator
stop e it = record it { valid = false; err = e }

-- `entries, err := it.reader.loadBlockEntries(i)`, with the way on if there is no error.
abbrev loading : Reader → ℕ → Iterator → (List BlockEntry → Run Iterator) → Run Iterator
loading r i it on = elim (load_block_entries r i) [
  | ok entries ↦ on entries
  | err e ↦ ok (stop (some e) it)
  | panic ↦ panic
]

-- The iterator at an entry.
abbrev at : ℕ → List BlockEntry → ℕ → Iterator → Iterator
at block_idx entries entry_idx it = record it {
  block_idx = block_idx;
  entries = entries;
  entry_idx = entry_idx;
  valid = true;
  err = none;
}

unfoldable pub seek_to_first : Iterator → Run Iterator
unfolding load_block_entries
seek_to_first it = elim it.reader [
  | none ↦ ok (stop (some iterator_closed) it)
  | some r ↦
      let it = record it { block_idx = 0 } in
      if length r.index_entries == 0
      then ok (stop none it)
      else loading r 0 it (λ entries. ok (at 0 entries 0 it))
]

-- The loop over the entries of a block, from position `i` on.
unfoldable pub find_entry : Bytes → List BlockEntry → ℕ → Option ℕ
find_entry target [] i = none
find_entry target (entry ∷ entries) i = elim (compare_bytes entry.key.user_key target) [
  | Ordering.lt ↦ find_entry target entries (i + 1)
  | _ ↦ some i
]

-- `for blockIdx < n`, on as many rounds as there are blocks left.
unfoldable pub seek_from : ℕ → Reader → Bytes → ℕ → Iterator → Run Iterator
unfolding find_entry
seek_from zero r target block_idx it = ok (stop none it)
seek_from (suc rounds) r target block_idx it = loading r block_idx it (λ entries.
    elim (find_entry target entries 0) [
      | some entry_idx ↦ ok (at block_idx entries entry_idx it)
      | none ↦ seek_from rounds r target (block_idx + 1) it
    ])

-- With no block at or after the target the loop has nothing to visit.
unfoldable pub seek : Bytes → Iterator → Run Iterator
unfolding seek_from
seek target it = elim it.reader [
  | none ↦ ok (stop (some iterator_closed) it)
  | some r ↦
      let block_idx = seek_block r.index_entries target in
      seek_from (length r.index_entries - block_idx) r target block_idx it
]

-- Where the current block is exhausted.
unfoldable pub next_block : Reader → Iterator → Run Iterator
next_block r it =
    if leb (length r.index_entries) it.block_idx
    then ok (record it { valid = false })
    else loading r it.block_idx it (λ entries. ok (record it { entries = entries }))

unfoldable pub next : Iterator → Run Iterator
unfolding next_block
next it =
    if not it.valid
    then ok it
    else (if ltb (it.entry_idx + 1) (length it.entries)
        then ok (record it { entry_idx = it.entry_idx + 1 })
        else elim it.reader [
          | none ↦ panic
          | some r ↦ next_block r (record it { block_idx = it.block_idx + 1; entry_idx = 0 })
        ])

-- The entry at the current position.
unfoldable pub current : Iterator → Run BlockEntry
current it = index {E = ⊥} it.entries it.entry_idx

unfoldable pub key : Iterator → Run InternalKey
unfolding current
key it = if not it.valid then ok zero_key else do entry ← current it; ok entry.key

unfoldable pub value : Iterator → Run Bytes
unfolding current
value it = if not it.valid then ok [] else do entry ← current it; ok entry.value

unfoldable pub close : Iterator → Result SstError (Unit {0}) × Iterator
close it = elim it.reader [
  | none ↦ (err iterator_closed, it)
  | some _ ↦
      (ok tt, record it { reader = none; entries = []; valid = false; err = some iterator_closed })
]

-- `for ; it.Valid(); it.Next()`, with what the loop reads.
unfoldable pub collect : ℕ → Iterator → Run (List BlockEntry)
unfolding key value next
collect zero it = panic
collect (suc fuel) it = elim it.valid [
  | false ↦ ok []
  | true ↦ do
    k ← key it
    v ← value it
    it ← next it
    rest ← collect fuel it
    ok (record { key = k; value = v } ∷ rest)
]
