-- ===== src/Engine/Flush.antt =====
-- engine/db.go: writing a frozen memtable to a table file and publishing the table, on the flusher's
-- goroutine and in Flush. What other goroutines do while the lock is released is a change of the
-- database, what they do while Flush waits a list of changes. The rounds of the flusher's goroutine
-- also have the condition variable: who sleeps on it, and who was woken and waits for the lock. The
-- file of a failed flush is removed again.
pub mod Writes
pub mod Reads
pub mod Waits
pub mod Turns
mod Tests
use beachdb.Prelude.{
  ℕ, zero, suc, Bool, true, false, List, [], ◌∷◌, ◌++◌, Option, none, some, Result, ok, err, panic,
  ◌>>=◌, ◌>>◌, return_if, ltb, ◌==◌, if◌then◌else◌,
}
use beachdb.Keys.{InternalKey}
use beachdb.Sstable.Errors.{SstError}
use beachdb.Sstable.Block.{BlockEntry}
use beachdb.Sstable.Reader.{open_reader}
use beachdb.Sstable.Writer.{Writer, new_writer, add, close}
use beachdb.Memtable.{Memtable}
use beachdb.Engine.{
  Db, DbError, Outcome, returned, waiting, db_closed, sst_error, write_fault, flush_empty_memtable,
  wait_for_flush_slot, rotate, rotate_after, woken, wake_up,
}
use beachdb.Engine.Publish.{SstWriteResult, publish_flushed_sst}

-- `fmt.Errorf("beachdb: ...: %w", err)`
abbrev pub wrap_sst : {A : Type 0} → Result SstError A → Result DbError A
wrap_sst (ok a) = ok a
wrap_sst (err e) = err (sst_error e)
wrap_sst panic = panic

-- The keys that were seen, the first and the last.
abbrev pub Range : Type 0
Range = Option (InternalKey × InternalKey)

abbrev pub seen : InternalKey → Range → InternalKey × InternalKey
seen key none = (key, key)
seen key (some (smallest, largest)) = (smallest, key)

-- The loop over the memtable's iterator, and the result behind it.
unfoldable pub write_memtable_entries :
    List BlockEntry → Writer → Range → Result DbError (Writer × InternalKey × InternalKey)
write_memtable_entries [] writer none = err flush_empty_memtable
write_memtable_entries [] writer (some (smallest, largest)) = ok (writer, smallest, largest)
write_memtable_entries (e ∷ es) writer range = wrap_sst (add e.key e.value writer) >>= λ w.
    write_memtable_entries es w (some (seen e.key range))

abbrev pub default_block_size : ℕ
default_block_size = 4096

unfoldable pub write_ss_table : Bool → ℕ → List BlockEntry → Result DbError SstWriteResult
unfolding write_memtable_entries
write_ss_table fault block_size entries = do
  return_if fault write_fault
  writer ← wrap_sst (new_writer (if ltb 0 block_size then block_size else default_block_size))
  (writer, smallest, largest) ← write_memtable_entries entries writer none
  writer ← wrap_sst (close writer)
  reader ← wrap_sst (open_reader writer.file)
  ok (record { reader = reader; smallest = smallest; largest = largest; size = reader.file_size })

module _ (M : Memtable) where
  -- What a flush meets: the failpoints, the block size, and what happens while the lock is released.
  pub record Job : Type 1 where
    pub write_fault : Bool
    pub publish_fault : Bool
    pub block_size : ℕ
    pub meanwhile : Db M → Db M

  -- `db.flushErr = err`
  unfoldable pub record_failure :
      Result DbError (Unit {0}) × Db M → Result DbError (Unit {0}) × Db M
  record_failure (ok _, db) = (ok tt, db)
  record_failure (err e, db) = (err e, record db { flush_err = some e })
  record_failure (panic, db) = (panic, db)

  unfoldable pub after_write :
      Bool → Result DbError SstWriteResult → Db M → Result DbError (Unit {0}) × Db M
  unfolding record_failure
  after_write fault (ok result) db = record_failure (publish_flushed_sst M fault result db)
  after_write fault (err e) db = record_failure (err e, db)
  after_write fault panic db = (panic, db)

  -- From the release of the lock on: the table is written, then published under the lock again.
  -- The broadcast behind it is in `after_flush` for the flusher; that of Flush is among the changes
  -- that the sleepers see.
  unfoldable pub flush_frozen : Job → M.Mem → Db M → Result DbError (Unit {0}) × Db M
  unfolding write_ss_table after_write
  flush_frozen job imm db =
      after_write job.publish_fault (write_ss_table job.write_fault job.block_size (M.entries imm))
        (job.meanwhile db)

  -- How a round of the flusher ends: it sleeps or looks again, or it returns.
  pub data Flusher : Type 1 where
    goes_on exits : Flusher

  -- The database with its condition variable: the goroutines that sleep in `cond.Wait()`, the one
  -- that has slept longest first, and those that were woken and have not had the lock since.
  pub record Monitor : Type 0 where
    pub db : Db M
    pub asleep : List ℕ
    pub ready : List ℕ

  -- `cond.Broadcast()`
  unfoldable pub broadcast : Monitor → Monitor
  broadcast m = record m { asleep = []; ready = m.ready ++ m.asleep }

  -- `cond.Signal()`
  unfoldable pub signal : Monitor → Monitor
  signal m = elim m.asleep [
    | [] ↦ m
    | i ∷ is ↦ record m { asleep = is; ready = m.ready ++ (i ∷ []) }
  ]

  -- The end of a round, under the lock.
  unfoldable pub after_flush : Result DbError (Unit {0}) × Db M → Monitor → Flusher × Monitor
  unfolding broadcast
  after_flush (ok _, db) m = (goes_on, broadcast (record m { db = db }))
  after_flush (err e, db) m = (exits, broadcast (record m { db = db }))
  after_flush (panic, db) m = (exits, record m { db = db })

  -- One round of flushLoop, from a wake-up on. `late` are the goroutines that fall asleep while the
  -- lock is released.
  unfoldable pub flush_round : Job → List ℕ → Monitor → Flusher × Monitor
  unfolding flush_frozen after_flush broadcast
  flush_round job late m = if m.db.closed then (exits, m) else elim m.db.imm_mem [
    | none ↦ (goes_on, m)
    | some imm ↦
        if M.len imm == 0
        then (goes_on, broadcast (record m { db = record m.db { imm_mem = none } }))
        else after_flush (flush_frozen job imm m.db) (record m { asleep = m.asleep ++ late })
  ]

  -- A wake-up of the flusher: what happened while it slept, and what its round meets.
  abbrev pub Wake : Type 1
  Wake = (Monitor → Monitor) × Job × List ℕ

  -- flushLoop, for the wake-ups listed.
  unfoldable pub flush_loop : List Wake → Monitor → Flusher × Monitor
  unfolding flush_round
  flush_loop [] m = (goes_on, m)
  flush_loop ((before, job, late) ∷ wakes) m =
      let (flusher, m) = flush_round job late (before m) in
      elim flusher [ goes_on ↦ flush_loop wakes m | exits ↦ (exits, m) ]

  -- A writer in maybeAutoFlushLocked gets the lock again after its wake-up: it returns, it takes the
  -- slot and signals, or it sleeps again.
  unfoldable pub settle : ℕ → Monitor → Outcome × Db M → Outcome × Monitor
  unfolding signal
  settle i m (returned (ok _), db) = (returned (ok tt), signal (record m { db = db }))
  settle i m (returned (err e), db) = (returned (err e), record m { db = db })
  settle i m (returned panic, db) = (returned panic, record m { db = db })
  settle i m (waiting, db) = (waiting, record m { db = db; asleep = m.asleep ++ (i ∷ []) })

  unfoldable pub slot_turn : ℕ → Monitor → Outcome × Monitor
  unfolding settle rotate_after
  slot_turn i m =
      settle i m (rotate_after M (wake_up M (wait_for_flush_slot M []) (woken M m.db) m.db))

  -- Writers get the lock one after the other.
  unfoldable pub slot_turns : List ℕ → Monitor → List (ℕ × Outcome) × Monitor
  unfolding slot_turn
  slot_turns [] m = ([], m)
  slot_turns (i ∷ is) m =
      let turn = slot_turn i m in let rest = slot_turns is turn.1 in ((i, turn.0) ∷ rest.0, rest.1)

  -- The end of Flush where the goroutine does the work.
  unfoldable pub flushed : Db M → Result DbError (Unit {0})
  flushed db =
      if db.closed then err db_closed else elim db.flush_err [ some e ↦ err e | none ↦ ok tt ]

  -- `for db.immMem != nil && !db.closed`
  unfoldable pub await_flush : List (Db M → Db M) → Db M → Outcome × Db M
  unfolding flushed
  await_flush [] db =
      if db.closed
      then (returned (flushed db), db)
      else elim db.imm_mem [ none ↦ (returned (flushed db), db) | some _ ↦ (waiting, db) ]
  await_flush (wake ∷ wakes) db =
      if db.closed then (returned (flushed db), db) else elim db.imm_mem [
        | none ↦ (returned (flushed db), db)
        | some _ ↦ elim (wake db).flush_err [
          | some e ↦ (returned (err e), wake db)
          | none ↦ await_flush wakes (wake db)
        ]
      ]

  abbrev pub finished : Result DbError (Unit {0}) × Db M → Outcome × Db M
  finished (r, db) = (returned r, db)

  -- Behind the wait for a flush in progress. `running` says that the flusher's goroutine runs.
  after_slot : Bool → List (Db M → Db M) → Job → Outcome × Db M → Outcome × Db M
  unfolding await_flush flush_frozen
  after_slot running wakes job (returned (ok _), db) =
      if running
      then await_flush wakes (rotate M db)
      else finished (flush_frozen job db.mem (rotate M db))
  after_slot running wakes job (returned (err e), db) = (returned (err e), db)
  after_slot running wakes job (returned panic, db) = (returned panic, db)
  after_slot running wakes job (waiting, db) = (waiting, db)

  unfoldable pub flush_memtable :
      Bool → List (Db M → Db M) → List (Db M → Db M) → Job → Db M → Outcome × Db M
  unfolding after_slot
  flush_memtable running waits wakes job db =
      if db.closed then (returned (err db_closed), db) else elim db.flush_err [
        | some e ↦ (returned (err e), db)
        | none ↦
            if M.len db.mem == 0
            then (returned (ok tt), db)
            else after_slot running wakes job (wait_for_flush_slot M waits db)
      ]
