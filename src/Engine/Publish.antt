-- ===== src/Engine/Publish.antt =====
-- engine/db.go: publishing a flushed table. The failpoint is an argument; closing the reader of a
-- table that could not be published changes nothing else.
pub mod Reads
pub mod Recorded
mod Tests
use beachdb.Prelude.{
  ℕ, ◌+◌, ◌%◌, ◌^◌, Bool, true, false, List, [], ◌∷◌, ◌++◌, Option, none, some, Result, ok, err,
  panic, if◌then◌else◌,
}
use beachdb.Keys.{InternalKey}
use beachdb.Manifest.Edit.{VersionEdit, FileMetadata, encode_edit}
use beachdb.Manifest.Version.{apply}
use beachdb.Manifest.Writer.{Writer, ManifestError, append}
use beachdb.Sstable.Reader.{Reader}
use beachdb.Memtable.{Memtable}
use beachdb.Engine.{Db, DbError, publish_fault, manifest_error}

pub record SstWriteResult : Type 0 where
  pub reader : Reader
  pub smallest : InternalKey
  pub largest : InternalKey
  pub size : ℕ

module _ (M : Memtable) where
  unfoldable pub flush_edit : SstWriteResult → Db M → VersionEdit
  flush_edit flush_result db = record {
    added_files =
        record {
          level = 0;
          file_id = db.next_sst_id;
          size = flush_result.size;
          smallest_key = flush_result.smallest;
          largest_key = flush_result.largest;
        }
        ∷ [];
    deleted_files = [];
    has_next_file_id = true;
    next_file_id = (1 + db.next_sst_id) % 2 ^ 64;
    has_last_sequence = true;
    last_sequence = db.seqno;
    has_log_number = false;
    log_number = 0;
  }

  -- Behind the append to the manifest.
  unfoldable pub install : SstWriteResult → VersionEdit → Writer → Db M → Db M
  install flush_result edit manifest db = record db {
    manifest = manifest;
    version = apply db.version edit;
    flush_err = none;
    ssts = db.ssts ++ (flush_result.reader ∷ []);
    imm_mem = none;
    next_sst_id = (db.next_sst_id + 1) % 2 ^ 64;
  }

  unfoldable pub after_manifest :
      SstWriteResult
      → VersionEdit
      → Result ManifestError (Unit {0}) × Writer
      → Db M
      → Result DbError (Unit {0}) × Db M
  unfolding install
  after_manifest flush_result edit (ok _, manifest) db =
      (ok tt, install flush_result edit manifest db)
  after_manifest flush_result edit (err e, manifest) db =
      (err (manifest_error e), record db { manifest = manifest })
  after_manifest flush_result edit (panic, manifest) db = (panic, record db { manifest = manifest })

  unfoldable pub publish_flushed_sst :
      Bool → SstWriteResult → Db M → Result DbError (Unit {0}) × Db M
  unfolding flush_edit after_manifest
  publish_flushed_sst fault flush_result db =
      if fault
      then (err publish_fault, db)
      else let edit = flush_edit flush_result db in
        after_manifest flush_result edit (append (encode_edit edit) db.manifest) db
