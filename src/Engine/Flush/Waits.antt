-- ===== src/Engine/Flush/Waits.antt =====
-- How a flush ends.
use beachdb.Prelude.{
  ◌≡◌, refl, Bool, true, false, none, some, Result, ok, err, panic, ◌⊎◌, inl, inr,
}
use beachdb.Manifest.Edit.{VersionEdit, encode_edit}
use beachdb.Manifest.Writer.{Writer, ManifestError, append}
use beachdb.Memtable.{Memtable}
use beachdb.Engine.{Db, DbError}
use beachdb.Engine.Publish.{
  SstWriteResult, publish_flushed_sst, after_manifest, install, flush_edit,
}
use beachdb.Engine.Flush.{write_ss_table, Job, record_failure, after_write, flush_frozen}

module _ (M : Memtable) where
  abbrev Succeeds : Db M → Result DbError (Unit {0}) × Db M → Type 0
  Succeeds before (r, db) =
      (r ≡ ok tt) × (db.imm_mem ≡ none) × (db.flush_err ≡ none) × (db.closed ≡ before.closed)

  abbrev Fails : Db M → DbError → Result DbError (Unit {0}) × Db M → Type 0
  Fails before e (r, db) =
      (r ≡ err e)
      × (db.imm_mem ≡ before.imm_mem)
      × (db.ssts ≡ before.ssts)
      × (db.flush_err ≡ some e)
      × (db.closed ≡ before.closed)

  -- It succeeds and frees the slot, or it fails, keeps the frozen memtable and the tables, and
  -- records its error, or it panics.
  abbrev pub Ends : Db M → Result DbError (Unit {0}) × Db M → Type 0
  Ends before p = Succeeds before p ⊎ (((e : DbError) × Fails before e p) ⊎ (p.0 ≡ panic))

  after_manifest-Ends :
      (res : SstWriteResult) (edit : VersionEdit) (x : Result ManifestError (Unit {0}) × Writer)
      (db : Db M)
      → Ends db (record_failure M (after_manifest M res edit x db))
  unfolding record_failure after_manifest install
  after_manifest-Ends res edit (ok u, w) db = inl (refl, refl, refl, refl)
  after_manifest-Ends res edit (err e, w) db = inr (inl (_, (refl, refl, refl, refl, refl)))
  after_manifest-Ends res edit (panic, w) db = inr (inr refl)

  publish-Ends :
      (fault : Bool) (res : SstWriteResult) (db : Db M)
      → Ends db (record_failure M (publish_flushed_sst M fault res db))
  unfolding publish_flushed_sst
  publish-Ends true res db = unfold record_failure in inr (inl (_, (refl, refl, refl, refl, refl)))
  publish-Ends false res db =
      after_manifest-Ends res (flush_edit M res db)
        (append (encode_edit (flush_edit M res db)) db.manifest) db

  after_write-Ends :
      (fault : Bool) (r : Result DbError SstWriteResult) (db : Db M)
      → Ends db (after_write M fault r db)
  unfolding after_write
  after_write-Ends fault (ok res) db = publish-Ends fault res db
  after_write-Ends fault (err e) db =
      unfold record_failure in inr (inl (e, (refl, refl, refl, refl, refl)))
  after_write-Ends fault panic db = inr (inr refl)

  -- A flush that succeeds frees the slot and clears the flush error; one that fails keeps the
  -- frozen memtable and the tables and records its error; neither opens or closes the database;
  -- and there is no other end but a panic.
  pub flush_frozen-Ends :
      (job : Job M) (imm : M.Mem) (db : Db M) → Ends (job.meanwhile db) (flush_frozen M job imm db)
  unfolding flush_frozen
  flush_frozen-Ends job imm db =
      after_write-Ends job.publish_fault
        (write_ss_table job.write_fault job.block_size (M.entries imm)) (job.meanwhile db)
