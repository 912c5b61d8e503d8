-- ===== src/Engine/Durable.antt =====
-- What a write leaves in the log, and what a crash leaves of it.
use beachdb.Prelude.{
  ℕ, ◌+◌, ◌≤◌, ◌≡◌, refl, sym, ap, ◌∙◌, arith, Bool, true, false, ◌||◌, List, [], ◌∷◌, ◌++◌, Bytes,
  append_assoc, append-nil, Option, none, some, length, length-append, Result, ok, err, panic,
  subst, Bool-cases, inl, inr, ltb, ◌==◌, if◌then◌else◌,
}
use beachdb.Batch.{Operation, Batch, is_empty}
use beachdb.Wal.{Writer, WalError, append, sync, wal_record_format}
use beachdb.Wal.Contents.{contents, IsSynced, append-contents, sync-contents, append-keeps}
use beachdb.Wal.Cut.{stream_of}
use beachdb.Stream.{new_reader}
use beachdb.Stream.Torn.{record_of}
use beachdb.Memtable.{Memtable}
use beachdb.Engine.{
  Db, DbError, Outcome, returned, waiting, apply_operation, apply_operations,
  check_write_preconditions, sync_wal, wrap_wal, wait_for_flush_slot, rotate, rotate_after,
  maybe_auto_flush, after_sync, after_append, append_encoded, write_batch, write_checked, write,
  replay_wal, replay_records,
}
use beachdb.Engine.Recovery.{
  Logged, AllLogged, apply_batches, replay-stream, stream-length, AllLogged-Fits,
}

pub pair_eq : {A B : Type 0} (x : A × B) (a : A) → x.0 ≡ a → x ≡ (a, x.1)
pair_eq (a', b) a e = ap (λ t. (t, b)) e

module _ (M : Memtable) where
  apply_operations-wal :
      (ops : List Operation) (db : Db M) → (apply_operations M ops db).wal ≡ db.wal
  unfolding apply_operations apply_operation
  apply_operations-wal [] db = refl
  apply_operations-wal (op ∷ ops) db = apply_operations-wal ops (apply_operation M op db)

  rotate_after-wal : (x : Outcome × Db M) → (rotate_after M x).1.wal ≡ x.1.wal
  unfolding rotate_after rotate
  rotate_after-wal (returned (ok _), db) = refl
  rotate_after-wal (returned (err e), db) = refl
  rotate_after-wal (returned panic, db) = refl
  rotate_after-wal (waiting, db) = refl

  wait-wal :
      (imm : Option M.Mem) (e : Option DbError) (db : Db M)
      → db.imm_mem ≡ imm
      → db.flush_err ≡ e
      → (wait_for_flush_slot M [] db).1.wal ≡ db.wal
  unfolding wait_for_flush_slot
  wait-wal none e db p q = rw p refl
  wait-wal (some m) none db p q = rw (p, q) refl
  wait-wal (some m) (some e) db p q = rw (p, q) refl

  maybe_auto_flush-wal : (db : Db M) → (maybe_auto_flush M [] db).1.wal ≡ db.wal
  unfolding maybe_auto_flush
  maybe_auto_flush-wal db =
      elim (Bool-cases
        (db.memtable_flush_size == 0 || ltb (M.size db.mem) db.memtable_flush_size)) [
          | inl idle ↦
              ap
                (λ (b : Bool).
                  (if b
                    then (returned (ok tt), db)
                    else rotate_after M (wait_for_flush_slot M [] db)).1.wal)
                idle
          | inr full ↦
              ap
                (λ (b : Bool).
                  (if b
                    then (returned (ok tt), db)
                    else rotate_after M (wait_for_flush_slot M [] db)).1.wal)
                full
              ∙ rotate_after-wal (wait_for_flush_slot M [] db)
              ∙ wait-wal db.imm_mem db.flush_err db refl refl
        ]

  pub sync_wal_synced :
      (db : Db M)
      → db.sync_on_write ≡ true
      → db.wal.is_open ≡ true
      → sync_wal M false db ≡ (ok tt, record db { wal = (sync db.wal).1 })
  unfolding sync_wal wrap_wal
  sync_wal_synced db on is_open =
      let done = pair_eq (sync db.wal) (ok tt) (sync-contents db.wal is_open).0 in
      ap
        (λ (b : Bool).
          if b
          then (wrap_wal M (sync db.wal).0, record db { wal = (sync db.wal).1 })
          else (ok tt, db))
        on
      ∙ ap (λ (x : Result WalError (Unit {0})). (wrap_wal M x, record db { wal = (sync db.wal).1 }))
          (sync-contents db.wal is_open).0

  -- What stands between a write and its append.
  pub record Accepts (b : Batch) (p : Bytes) (db : Db M) : Type 0 where
    pub is_open : db.closed ≡ false
    pub no_error : db.flush_err ≡ none
    pub log_is_open : db.wal.is_open ≡ true
    pub some_operation : is_empty b ≡ false
    pub logged : Logged b.ops p

  pub write_appends :
      (b : Batch) (p : Bytes) (db : Db M)
      → Accepts b p db
      → write M false false [] (some b) db ≡ after_append M false [] b.ops (append p db.wal) db
  unfolding write check_write_preconditions write_checked write_batch append_encoded
  write_appends b p db a =
      rw
        (
          a.is_open, a.no_error, write_checked, write_batch, a.some_operation, a.logged.encodes,
          append_encoded,
        )
        refl

  after_append-wal :
      (ops : List Operation) (w : Writer) (db : Db M)
      → db.sync_on_write ≡ true
      → w.is_open ≡ true
      → (after_append M false [] ops (ok tt, w) db).1.wal ≡ (sync w).1
  unfolding after_append after_sync
  after_append-wal ops w db on is_open =
      let db' : Db M = record db { wal = w } in
      let db'' : Db M = record db { wal = (sync w).1 } in
      ap (λ (x : Result DbError (Unit {0}) × Db M). (after_sync M [] ops x).1.wal)
        (sync_wal_synced db' on is_open)
      ∙ maybe_auto_flush-wal (apply_operations M ops db'')
      ∙ apply_operations-wal ops db''

  write-wal :
      (b : Batch) (p : Bytes) (db : Db M)
      → Accepts b p db
      → db.sync_on_write ≡ true
      → (write M false false [] (some b) db).1.wal ≡ (sync (append p db.wal).1).1
  write-wal b p db a on =
      ap (λ (x : Outcome × Db M). x.1.wal) (write_appends b p db a)
      ∙ ap (λ (x : Result WalError (Unit {0}) × Writer). (after_append M false [] b.ops x db).1.wal)
          (pair_eq (append p db.wal) (ok tt)
            (append-contents db.wal p a.log_is_open a.logged.fits).0)
      ∙ after_append-wal b.ops (append p db.wal).1 db on
          (append-keeps db.wal p a.log_is_open a.logged.fits)

  -- With syncing on, writing a batch that is not empty and encodes within the limits to an open
  -- database with an open log and no flush error, with no failpoint, adds the record of the batch
  -- behind the log, and leaves all of the log in the file and synced.
  pub write-logs :
      (b : Batch) (p : Bytes) (db : Db M)
      → Accepts b p db
      → db.sync_on_write ≡ true
      → IsSynced (write M false false [] (some b) db).1.wal
        × (contents (write M false false [] (some b) db).1.wal
            ≡ contents db.wal ++ record_of wal_record_format p)
  write-logs b p db a on =
      let w = (append p db.wal).1 in
      let open_still = append-keeps db.wal p a.log_is_open a.logged.fits in
      let (_, (synced, same)) = sync-contents w open_still in
      (
        subst IsSynced (sym (write-wal b p db a on)) synced,
        ap contents (write-wal b p db a on)
            ∙ same
            ∙ (append-contents db.wal p a.log_is_open a.logged.fits).1,
      )

  stream_of-append :
      (ps : List Bytes) (p : Bytes)
      → stream_of wal_record_format (ps ++ (p ∷ []))
        ≡ stream_of wal_record_format ps ++ record_of wal_record_format p
  stream_of-append [] p = append-nil (record_of wal_record_format p)
  stream_of-append (q ∷ ps) p =
      ap (λ (t : Bytes). record_of wal_record_format q ++ t) (stream_of-append ps p)
      ∙ sym (
          append_assoc (record_of wal_record_format q) (stream_of wal_record_format ps)
            (record_of wal_record_format p))

  AllLogged-append :
      (opss : List (List Operation)) (ps : List Bytes) (ops : List Operation) (p : Bytes)
      → AllLogged opss ps
      → Logged ops p
      → AllLogged (opss ++ (ops ∷ [])) (ps ++ (p ∷ []))
  AllLogged-append [] [] ops p h l = (l, tt)
  AllLogged-append [] (q ∷ ps) ops p h l = absurd h
  AllLogged-append (os ∷ opss) [] ops p h l = absurd h
  AllLogged-append (os ∷ opss) (q ∷ ps) ops p (h, hs) l = (h, AllLogged-append opss ps ops p hs l)

  replay-whole :
      (opss : List (List Operation)) (ps : List Bytes) (fresh : Db M)
      → AllLogged opss ps
      → replay_wal M (some (stream_of wal_record_format ps)) fresh
        ≡ (ok none, apply_batches M opss fresh)
  unfolding replay_wal new_reader
  replay-whole opss ps fresh h =
      let whole = stream_of wal_record_format ps in
      ap
        (λ (t : Bytes).
          replay_records M (length whole + 1) (record { file = some t; pos = 0 }) fresh)
        (sym (append-nil whole))
      ∙ replay-stream M opss ps [] (length whole + 1) 0 fresh h (inl refl)
          (omega (arith, stream-length ps (AllLogged-Fits opss ps h)))

  prefix_eq :
      (front back : Bytes) (whole : Bytes)
      → front ++ back ≡ whole
      → length whole ≤ length front
      → front ≡ whole
  prefix_eq front [] whole e h = sym (append-nil front) ∙ e
  prefix_eq front (b ∷ back) whole e h =
      let total : length whole ≡ length front + length (b ∷ back) =
        ap (length {A = ℕ}) (sym e) ∙ length-append front (b ∷ back) in
      absurd (omega (arith, h, total))

  -- Let the file and buffer of a database's open log hold the records of some batches, syncing be
  -- on, the database be open with no flush error, and one more batch be written that is not empty
  -- and encodes within the limits; no failpoint fires and nothing else runs. Of the log's file a
  -- crash may leave any front part that has the bytes which are synced then. Recovery from that
  -- part ends without an error and applies all the batches, the last one included, in order.
  pub write-durable :
      (opss : List (List Operation)) (ps : List Bytes) (b : Batch) (p front back : Bytes)
      (db fresh : Db M)
      → AllLogged opss ps
      → contents db.wal ≡ stream_of wal_record_format ps
      → Accepts b p db
      → db.sync_on_write ≡ true
      → front ++ back ≡ (write M false false [] (some b) db).1.wal.file
      → (write M false false [] (some b) db).1.wal.synced ≤ length front
      → replay_wal M (some front) fresh ≡ (ok none, apply_batches M (opss ++ (b.ops ∷ [])) fresh)
  write-durable opss ps b p front back db fresh h log a on e kept =
      let w = (write M false false [] (some b) db).1.wal in
      let ((empty, synced), grown) = write-logs b p db a on in
      let file_eq : w.file ≡ stream_of wal_record_format (ps ++ (p ∷ [])) =
        sym (ap (λ (t : Bytes). w.file ++ t) empty ∙ append-nil w.file)
        ∙ grown
        ∙ ap (λ (t : Bytes). t ++ record_of wal_record_format p) log
        ∙ sym (stream_of-append ps p) in
      let front_eq : front ≡ w.file = prefix_eq front back w.file e (omega (arith, synced, kept)) in
      ap (λ (t : Bytes). replay_wal M (some t) fresh) (front_eq ∙ file_eq)
      ∙ replay-whole (opss ++ (b.ops ∷ [])) (ps ++ (p ∷ [])) fresh
          (AllLogged-append opss ps b.ops p h a.logged)
