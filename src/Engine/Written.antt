-- ===== src/Engine/Written.antt =====
-- Write as a whole, and what reads give behind it.

use beachdb.Prelude.{
  ℕ, ◌+◌, ◌^◌, ◌<◌, ◌≡◌, refl, sym, ap, ◌∙◌, Bool, true, false, ◌||◌, List, [], ◌∷◌, Bytes, length,
  Option, none, some, Result, ok, ltb, ◌==◌, if◌then◌else◌, ◌⊎◌, inl, inr,
}
use beachdb.Batch.{Operation, Batch}
use beachdb.Wal.{Writer, WalError, append, sync}
use beachdb.Wal.Contents.{append-contents, append-keeps}
use beachdb.Memtable.{Memtable, IsMemtable, Lookup, missing, deleted, found, lookup}
use beachdb.Engine.{
  Db, Outcome, returned, apply_operation, apply_operations, wait_for_flush_slot, rotate,
  rotate_after, maybe_auto_flush, after_sync, after_append, write, after_imm, look_in_imm,
  after_mem, get_key,
}
use beachdb.Engine.Durable.{Accepts, write_appends, sync_wal_synced, pair_eq}
use beachdb.Engine.Reads.Refines.{IsConsistent, get_open, steps, get_key-apply_operations}

module _ (M : Memtable) where
  write_synced :
      (b : Batch) (p : Bytes) (db : Db M)
      → Accepts M b p db
      → db.sync_on_write ≡ true
      → write M false false [] (some b) db
        ≡ maybe_auto_flush M []
            (apply_operations M b.ops (record db { wal = (sync (append p db.wal).1).1 }))
  unfolding after_append after_sync
  write_synced b p db a on =
      let w = (append p db.wal).1 in
      write_appends M b p db a
      ∙ ap (λ (x : Result WalError (Unit {0}) × Writer). after_append M false [] b.ops x db)
          (pair_eq (append p db.wal) (ok tt)
            (append-contents db.wal p a.log_is_open a.logged.fits).0)
      ∙ ap (after_sync M [] b.ops) (
          sync_wal_synced M (record db { wal = w }) on
            (append-keeps db.wal p a.log_is_open a.logged.fits))

  apply_operations-imm_mem :
      (ops : List Operation) (db : Db M) → (apply_operations M ops db).imm_mem ≡ db.imm_mem
  unfolding apply_operations apply_operation
  apply_operations-imm_mem [] db = refl
  apply_operations-imm_mem (op ∷ ops) db = apply_operations-imm_mem ops (apply_operation M op db)

  apply_operations-closed :
      (ops : List Operation) (db : Db M) → (apply_operations M ops db).closed ≡ db.closed
  unfolding apply_operations apply_operation
  apply_operations-closed [] db = refl
  apply_operations-closed (op ∷ ops) db = apply_operations-closed ops (apply_operation M op db)

  after_mem-wal :
      (x : Lookup) (w : Writer) (db : Db M) (key : Bytes)
      → after_mem M x (record db { wal = w }) key ≡ after_mem M x db key
  unfolding after_mem
  after_mem-wal (found v) w db key = refl
  after_mem-wal deleted w db key = refl
  after_mem-wal missing w db key = behind (look_in_imm M db.imm_mem key db.seqno) w db key
    where
      behind :
          (y : Lookup) (w : Writer) (db : Db M) (key : Bytes)
          → after_imm M y (record db { wal = w }) key ≡ after_imm M y db key
      behind (found v) w db key = refl
      behind deleted w db key = refl
      behind missing w db key = refl

  get_key-wal :
      (w : Writer) (db : Db M) (key : Bytes)
      → db.closed ≡ false
      → get_key M false key (record db { wal = w }) ≡ get_key M false key db
  get_key-wal w db key is_open =
      get_open M (record db { wal = w }) key is_open
      ∙ after_mem-wal (M.get key db.seqno db.mem) w db key
      ∙ sym (get_open M db key is_open)

  module _ (L : IsMemtable M) where
    nothing_new : (key : Bytes) (s : ℕ) → M.get key s M.new_mem ≡ missing
    nothing_new key s =
        L.get-entries key s M.new_mem L.new_mem-IsValid
        ∙ ap (λ es. lookup es key s) L.entries-new_mem
        ∙ unfold lookup in refl

    after_mem-rotate :
        (x : Lookup) (db : Db M) (key : Bytes)
        → db.imm_mem ≡ none
        → after_imm M x (rotate M db) key ≡ after_mem M x db key
    unfolding after_imm after_mem rotate look_in_imm
    after_mem-rotate (found v) db key e = refl
    after_mem-rotate deleted db key e = refl
    after_mem-rotate missing db key e =
        sym (ap (λ (m : Option M.Mem). after_imm M (look_in_imm M m key db.seqno) db key) e)

    -- On an open database, freezing the memtable for the flusher, while none is frozen, changes no
    -- read.
    pub get_key-rotate :
        (db : Db M) (key : Bytes)
        → db.closed ≡ false
        → db.imm_mem ≡ none
        → get_key M false key (rotate M db) ≡ get_key M false key db
    unfolding rotate after_mem look_in_imm
    get_key-rotate db key is_open e =
        get_open M (rotate M db) key is_open
        ∙ ap (λ (x : Lookup). after_mem M x (rotate M db) key) (nothing_new key db.seqno)
        ∙ after_mem-rotate (M.get key db.seqno db.mem) db key e
        ∙ sym (get_open M db key is_open)

    idle_or_full :
        (full : Bool) (db : Db M)
        → db.imm_mem ≡ none
        → (x : Outcome × Db M)
        → x
          ≡ (if full then (returned (ok tt), db) else rotate_after M (wait_for_flush_slot M [] db))
        → (x ≡ (returned (ok tt), db)) ⊎ (x ≡ (returned (ok tt), rotate M db))
    unfolding rotate_after wait_for_flush_slot
    idle_or_full true db e x h = inl h
    idle_or_full false db e x h = inr (h ∙ rw e refl)

    maybe_auto_flush_cases :
        (db : Db M)
        → db.imm_mem ≡ none
        → (maybe_auto_flush M [] db ≡ (returned (ok tt), db))
          ⊎ (maybe_auto_flush M [] db ≡ (returned (ok tt), rotate M db))
    unfolding maybe_auto_flush
    maybe_auto_flush_cases db e =
        idle_or_full (db.memtable_flush_size == 0 || ltb (M.size db.mem) db.memtable_flush_size) db
          e (maybe_auto_flush M [] db) refl

    maybe_auto_flush-get_key :
        (db : Db M) (key : Bytes)
        → db.closed ≡ false
        → db.imm_mem ≡ none
        → ((maybe_auto_flush M [] db).0 ≡ returned (ok tt))
          × (get_key M false key (maybe_auto_flush M [] db).1 ≡ get_key M false key db)
    maybe_auto_flush-get_key db key is_open e = elim (maybe_auto_flush_cases db e) [
      | inl idle ↦ rw idle (refl, refl)
      | inr full ↦ rw full (refl, get_key-rotate db key is_open e)
    ]

    -- On a consistent, open database with syncing on, no flush error and no frozen memtable, let a
    -- batch be written that is not empty and encodes within the limits, with the log open, no
    -- failpoint and the sequence numbers below 2^64. The write returns without an error, and
    -- behind it a read of any key gives what the last operation of the batch on that key says, or
    -- what it gave before if there is none.
    pub get_key-write :
        (b : Batch) (p : Bytes) (db : Db M) (key : Bytes)
        → Accepts M b p db
        → db.sync_on_write ≡ true
        → db.imm_mem ≡ none
        → db.seqno + length b.ops < 2 ^ 64
        → IsConsistent M L db
        → ((write M false false [] (some b) db).0 ≡ returned (ok tt))
          × (get_key M false key (write M false false [] (some b) db).1
              ≡ steps b.ops key (get_key M false key db))
    get_key-write b p db key a on idle small c =
        let w = (sync (append p db.wal).1).1 in
        let logged : Db M = record db { wal = w } in
        let applied = apply_operations M b.ops logged in
        let (returns, same) =
          maybe_auto_flush-get_key applied key (apply_operations-closed b.ops logged ∙ a.is_open)
            (apply_operations-imm_mem b.ops logged ∙ idle) in
        let whole = write_synced b p db a on in
        (
          ap (λ (x : Outcome × Db M). x.0) whole ∙ returns,
          ap (λ (x : Outcome × Db M). get_key M false key x.1) whole
              ∙ same
              ∙ get_key-apply_operations M L b.ops logged key a.is_open small
                  (record { mem = c.mem; imm_mem = c.imm_mem; tables = c.tables })
              ∙ ap (steps b.ops key) (get_key-wal w db key a.is_open),
        )
