-- ===== src/Engine.antt =====
-- engine/db.go: writing, reading and the recovery of the log. The database works on any memtable.
-- Every method holds the database's lock; what other goroutines do while it waits on the condition
-- variable is a list of changes, one for each time it wakes up.
pub mod Recovery
pub mod Reads
pub mod Durable
pub mod Written
pub mod Edits
pub mod Publish
pub mod Flush
pub mod Names
mod Tests
use beachdb.Prelude.{
  ℕ, zero, suc, ◌+◌, ◌%◌, ◌^◌, Bool, true, false, ◌||◌, List, [], ◌∷◌, Bytes, Option, none, some,
  length, Result, ok, err, panic, ltb, ◌==◌, if◌then◌else◌,
}
use beachdb.Keys.{InternalKey, kind_put, kind_delete}
use beachdb.Record.{truncated}
use beachdb.Batch.{
  OpType, op_put, op_delete, Operation, Batch, BatchError, new_batch, put, delete, is_empty,
  encode_operations, decode_batch,
}
use beachdb.Wal.{Writer, WalError, append, sync, wal_record_format}
use beachdb.Manifest.Writer
use beachdb.Manifest.Writer.{ManifestError}
use beachdb.Manifest.Version.{Version}
use beachdb.Stream.{ReadError, eof, reader_closed, record_error, next, new_reader, valid_offset}
use beachdb.Stream
use beachdb.Sstable.Errors.{SstError, key_not_found, key_deleted}
use beachdb.Sstable.Reader.{Reader, get}
use mathlib.Core.List.{reverse}
use beachdb.Memtable.{Memtable, Lookup, missing, deleted, found}

pub data DbError : Type 0 where
  db_closed call_canceled not_found sync_fault publish_fault : DbError
  write_fault flush_empty_memtable missing_file not_a_file : DbError
  manifest_error : ManifestError → DbError
  wal_error : WalError → DbError
  sst_error : SstError → DbError
  recovery_record : ReadError → DbError
  recovery_batch : BatchError → DbError

pub record Db (M : Memtable) : Type 0 where
  pub sync_on_write : Bool
  pub memtable_flush_size : ℕ
  pub closed : Bool
  pub seqno : ℕ
  pub mem : M.Mem
  pub imm_mem : Option M.Mem
  pub ssts : List Reader
  pub wal : Writer
  pub flush_err : Option DbError
  pub next_sst_id : ℕ
  pub manifest : Writer.Writer
  pub version : Version

-- What a call that may wait gives: its result, or that it still waits after the changes listed.
pub data Outcome : Type 0 where
  returned : Result DbError (Unit {0}) → Outcome
  waiting : Outcome

unfoldable pub kind_of : OpType → ℕ
kind_of op_put = kind_put
kind_of op_delete = kind_delete

module _ (M : Memtable) where
  -- One round of the loop of applyOperations. The sequence number is a uint64.
  unfoldable pub apply_operation : Operation → Db M → Db M
  unfolding kind_of
  apply_operation op db =
      let seqno = (db.seqno + 1) % 2 ^ 64 in
      let internal_key : InternalKey = record {
        user_key = op.key;
        seqno = seqno;
        kind = kind_of op.op_type;
      } in
      record db { seqno = seqno; mem = M.put internal_key op.value db.mem }

  unfoldable pub apply_operations : List Operation → Db M → Db M
  unfolding apply_operation
  apply_operations [] db = db
  apply_operations (op ∷ ops) db = apply_operations ops (apply_operation op db)

  unfoldable pub check_write_preconditions : Bool → Db M → Result DbError (Unit {0})
  check_write_preconditions canceled db = if db.closed then err db_closed else elim db.flush_err [
    | some e ↦ err e
    | none ↦ if canceled then err call_canceled else ok tt
  ]

  wrap_wal : Result WalError (Unit {0}) → Result DbError (Unit {0})
  wrap_wal (ok _) = ok tt
  wrap_wal (err e) = err (wal_error e)
  wrap_wal panic = panic

  -- `fault` is the failpoint before the fsync.
  unfoldable pub sync_wal : Bool → Db M → Result DbError (Unit {0}) × Db M
  unfolding wrap_wal
  sync_wal fault db =
      if db.sync_on_write
      then (if fault
          then (err sync_fault, db)
          else let (result, wal) = sync db.wal in (wrap_wal result, record db { wal = wal }))
      else (ok tt, db)

  -- After a wake-up: closed, or a failed flush, ends the wait.
  unfoldable pub woken : Db M → Result DbError (Unit {0})
  woken db =
      if db.closed then err db_closed else elim db.flush_err [ some e ↦ err e | none ↦ ok tt ]

  -- `cond.Wait()`, and the loop again unless it ends.
  unfoldable pub wake_up :
      (Db M → Outcome × Db M) → Result DbError (Unit {0}) → Db M → Outcome × Db M
  wake_up loop (ok _) db = loop db
  wake_up loop (err e) db = (returned (err e), db)
  wake_up loop panic db = (returned panic, db)

  unfoldable pub wait_for_flush_slot : List (Db M → Db M) → Db M → Outcome × Db M
  unfolding woken wake_up
  wait_for_flush_slot [] db = elim db.imm_mem [
    | none ↦ (returned (ok tt), db)
    | some _ ↦ elim db.flush_err [ some e ↦ (returned (err e), db) | none ↦ (waiting, db) ]
  ]
  wait_for_flush_slot (wake ∷ wakes) db = elim db.imm_mem [
    | none ↦ (returned (ok tt), db)
    | some _ ↦ elim db.flush_err [
      | some e ↦ (returned (err e), db)
      | none ↦ wake_up (wait_for_flush_slot wakes) (woken (wake db)) (wake db)
    ]
  ]

  -- The current memtable is frozen for the flusher, and a fresh one takes its place.
  unfoldable pub rotate : Db M → Db M
  rotate db = record db { imm_mem = some db.mem; mem = M.new_mem }

  rotate_after : Outcome × Db M → Outcome × Db M
  unfolding rotate
  rotate_after (returned (ok _), db) = (returned (ok tt), rotate db)
  rotate_after (returned (err e), db) = (returned (err e), db)
  rotate_after (returned panic, db) = (returned panic, db)
  rotate_after (waiting, db) = (waiting, db)

  unfoldable pub maybe_auto_flush : List (Db M → Db M) → Db M → Outcome × Db M
  unfolding wait_for_flush_slot rotate_after
  maybe_auto_flush wakes db =
      if db.memtable_flush_size == 0 || ltb (M.size db.mem) db.memtable_flush_size
      then (returned (ok tt), db)
      else rotate_after (wait_for_flush_slot wakes db)

  -- Behind the append: sync, apply, rotate.
  after_sync :
      List (Db M → Db M) → List Operation → Result DbError (Unit {0}) × Db M → Outcome × Db M
  unfolding maybe_auto_flush apply_operations
  after_sync wakes ops (ok _, db) = maybe_auto_flush wakes (apply_operations ops db)
  after_sync wakes ops (err e, db) = (returned (err e), db)
  after_sync wakes ops (panic, db) = (returned panic, db)

  pub after_append :
      Bool
      → List (Db M → Db M)
      → List Operation
      → Result WalError (Unit {0}) × Writer
      → Db M
      → Outcome × Db M
  unfolding sync_wal after_sync
  after_append fault wakes ops (ok _, wal) db =
      after_sync wakes ops (sync_wal fault (record db { wal = wal }))
  after_append fault wakes ops (err e, wal) db =
      (returned (err (wal_error e)), record db { wal = wal })
  after_append fault wakes ops (panic, wal) db = (returned panic, record db { wal = wal })

  append_encoded :
      Bool → List (Db M → Db M) → List Operation → Result BatchError Bytes → Db M → Outcome × Db M
  unfolding after_append
  append_encoded fault wakes ops (ok encoded) db =
      after_append fault wakes ops (append encoded db.wal) db
  append_encoded fault wakes ops (err e) db = (returned panic, db)
  append_encoded fault wakes ops panic db = (returned panic, db)

  write_batch : Bool → List (Db M → Db M) → Option Batch → Db M → Outcome × Db M
  unfolding append_encoded
  write_batch fault wakes none db = (returned (ok tt), db)
  write_batch fault wakes (some b) db =
      if is_empty b
      then (returned (ok tt), db)
      else append_encoded fault wakes b.ops (encode_operations b.ops) db

  write_checked :
      Bool → List (Db M → Db M) → Option Batch → Result DbError (Unit {0}) → Db M → Outcome × Db M
  unfolding write_batch
  write_checked fault wakes b (ok _) db = write_batch fault wakes b db
  write_checked fault wakes b (err e) db = (returned (err e), db)
  write_checked fault wakes b panic db = (returned panic, db)

  unfoldable pub write : Bool → Bool → List (Db M → Db M) → Option Batch → Db M → Outcome × Db M
  unfolding check_write_preconditions write_checked
  write canceled fault wakes b db =
      write_checked fault wakes b (check_write_preconditions canceled db) db

  unfoldable pub put_key : Bool → Bool → List (Db M → Db M) → Bytes → Bytes → Db M → Outcome × Db M
  unfolding write
  put_key canceled fault wakes key value db =
      write canceled fault wakes (some (put key value new_batch)) db

  unfoldable pub delete_key : Bool → Bool → List (Db M → Db M) → Bytes → Db M → Outcome × Db M
  unfolding write
  delete_key canceled fault wakes key db =
      write canceled fault wakes (some (delete key new_batch)) db

  -- One table of the loop over the tables; `rest` is what the older ones give.
  after_sst : Result SstError Bytes → Result DbError Bytes → Result DbError Bytes
  after_sst (ok v) rest = ok v
  after_sst (err key_deleted) rest = err not_found
  after_sst (err key_not_found) rest = rest
  after_sst (err e) rest = err (sst_error e)
  after_sst panic rest = panic

  search_ssts : List Reader → Bytes → ℕ → Result DbError Bytes
  unfolding after_sst
  search_ssts [] key seqno = err not_found
  search_ssts (r ∷ rs) key seqno = after_sst (get r key seqno) (search_ssts rs key seqno)

  pub after_imm : Lookup → Db M → Bytes → Result DbError Bytes
  unfolding search_ssts
  after_imm (found v) db key = ok v
  after_imm deleted db key = err not_found
  after_imm missing db key = search_ssts (reverse db.ssts) key db.seqno

  look_in_imm : Option M.Mem → Bytes → ℕ → Lookup
  look_in_imm none key seqno = missing
  look_in_imm (some imm) key seqno = M.get key seqno imm

  pub after_mem : Lookup → Db M → Bytes → Result DbError Bytes
  unfolding after_imm look_in_imm
  after_mem (found v) db key = ok v
  after_mem deleted db key = err not_found
  after_mem missing db key = after_imm (look_in_imm db.imm_mem key db.seqno) db key

  unfoldable pub get_key : Bool → Bytes → Db M → Result DbError Bytes
  unfolding after_mem
  get_key canceled key db =
      if db.closed
      then err db_closed
      else if canceled
      then err call_canceled
      else after_mem (M.get key db.seqno db.mem) db key

  -- The loop of replayWAL. The result carries the offset to truncate the file to, if its tail is
  -- torn. Each record takes bytes of the file, so as many rounds as bytes, and one, are enough.
  abbrev pub Replayed : Type 0
  Replayed = Result DbError (Option ℕ) × Db M

  replay_decoded : (Db M → Replayed) → Result BatchError Batch → Db M → Replayed
  unfolding apply_operations
  replay_decoded loop (ok batch) db = loop (apply_operations batch.ops db)
  replay_decoded loop (err e) db = (err (recovery_batch e), db)
  replay_decoded loop panic db = (panic, db)

  replay_next :
      (Stream.Reader → Db M → Replayed) → Result ReadError Bytes × Stream.Reader → Db M → Replayed
  unfolding replay_decoded
  replay_next loop (ok payload, r) db = replay_decoded (loop r) (decode_batch payload) db
  replay_next loop (err eof, r) db = (ok none, db)
  replay_next loop (err (record_error truncated), r) db = (ok (some (valid_offset r)), db)
  replay_next loop (err e, r) db = (err (recovery_record e), db)
  replay_next loop (panic, r) db = (panic, db)

  unfoldable pub replay_records : ℕ → Stream.Reader → Db M → Replayed
  unfolding replay_next
  replay_records zero r db = (panic, db)
  replay_records (suc fuel) r db = replay_next (replay_records fuel) (next wal_record_format r) db

  -- `none` is a log file that does not exist.
  unfoldable pub replay_wal : Option Bytes → Db M → Replayed
  unfolding replay_records
  replay_wal none db = (ok none, db)
  replay_wal (some contents) db = replay_records (length contents + 1) (new_reader contents) db
