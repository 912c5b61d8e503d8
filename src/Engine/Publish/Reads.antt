-- ===== src/Engine/Publish/Reads.antt =====
-- Publishing a table that holds the frozen memtable changes no read.
use mathlib.Core.List.{reverse, reverse-append}
use beachdb.Prelude.{
  ◌≡◌, refl, sym, ap, ◌∙◌, Bool, true, false, List, [], ◌∷◌, ◌++◌, Bytes, All, Option, some, Result,
  ok, err, panic,
}
use beachdb.Coding.{IsU64}
use beachdb.Manifest.Edit.{VersionEdit, encode_edit}
use beachdb.Manifest.Writer.{Writer, ManifestError, append}
use beachdb.Sstable.Errors.{SstError}
use beachdb.Sstable.Block.{BlockEntry}
use beachdb.Sstable.Reader.{Reader, Scanned, value_at, tombstone, absent, too_new, scan_block}
use beachdb.Sstable.Reader.Scan.{IsAscending}
use beachdb.Sstable.Reader.Blocks.{answer, entries_of, Stores}
use beachdb.Sstable.Reader.Lookup.{get-eq-scan}
use beachdb.Memtable.{Memtable, IsMemtable, Lookup, missing, deleted, found}
use beachdb.Memtable.Sorted.{IsSorted, of_scanned, lookup-eq-scan}
use beachdb.Engine.{Db, search_ssts, after_sst, after_imm, look_in_imm, after_mem, get_key}
use beachdb.Engine.Reads.Refines.{get_open}
use beachdb.Engine.Publish.{
  SstWriteResult, install, publish_flushed_sst, after_manifest, flush_edit,
}

-- The table holds the entries of the memtable.
pub record Holds (M : Memtable) (L : IsMemtable M) (r : Reader) (imm : M.Mem) : Type 0 where
  pub blocks : List (List BlockEntry)
  pub stored : Stores r r.index_entries blocks
  pub ascending : IsAscending (entries_of blocks)
  pub small : All (λ e. IsU64 e.key.seqno) (entries_of blocks)
  pub same : entries_of blocks ≡ M.entries imm
  pub valid : L.IsValid imm
  pub sorted : IsSorted (M.entries imm)

module _ (M : Memtable) (L : IsMemtable M) where
  -- What a table and a memtable give of the same entries.
  sst_as_mem :
      (x : Scanned) (db : Db M) (key : Bytes)
      → after_sst M (answer x) (search_ssts M (reverse db.ssts) key db.seqno)
        ≡ after_imm M (of_scanned x) db key
  unfolding after_sst after_imm
  sst_as_mem absent db key = refl
  sst_as_mem too_new db key = refl
  sst_as_mem tombstone db key = refl
  sst_as_mem (value_at v) db key = refl

  reverse_last : (rs : List Reader) (r : Reader) → reverse (rs ++ (r ∷ [])) ≡ r ∷ reverse rs
  reverse_last rs r = reverse-append rs (r ∷ [])

  search_published :
      (db : Db M) (r : Reader) (imm : M.Mem) (key : Bytes)
      → Holds M L r imm
      → search_ssts M (reverse (db.ssts ++ (r ∷ []))) key db.seqno
        ≡ after_imm M (M.get key db.seqno imm) db key
  unfolding search_ssts
  search_published db r imm key h =
      ap (λ (rs : List Reader). search_ssts M rs key db.seqno) (reverse_last db.ssts r)
      ∙ ap
          (λ (x : Result SstError Bytes).
            after_sst M x (search_ssts M (reverse db.ssts) key db.seqno))
          (get-eq-scan key r db.seqno h.blocks h.stored h.ascending h.small)
      ∙ sst_as_mem (scan_block (entries_of h.blocks) key db.seqno) db key
      ∙ ap (λ (es : List BlockEntry). after_imm M (of_scanned (scan_block es key db.seqno)) db key)
          h.same
      ∙ ap (λ (x : Lookup). after_imm M x db key)
          (sym (
            L.get-entries key db.seqno imm h.valid
            ∙ lookup-eq-scan key db.seqno (M.entries imm) h.sorted))

  after_mem-install :
      (x : Lookup) (db : Db M) (res : SstWriteResult) (edit : VersionEdit) (w : Writer)
      (imm : M.Mem) (key : Bytes)
      → db.imm_mem ≡ some imm
      → Holds M L res.reader imm
      → after_mem M x (install M res edit w db) key ≡ after_mem M x db key
  unfolding after_mem after_imm look_in_imm install
  after_mem-install (found v) db res edit w imm key frozen h = refl
  after_mem-install deleted db res edit w imm key frozen h = refl
  after_mem-install missing db res edit w imm key frozen h =
      search_published db res.reader imm key h
      ∙ sym (ap (λ (m : Option M.Mem). after_imm M (look_in_imm M m key db.seqno) db key) frozen)

  -- On an open database, installing a table that holds the entries of the frozen memtable, in key
  -- order, in the memtable's place changes no read.
  pub get_key-install :
      (db : Db M) (res : SstWriteResult) (edit : VersionEdit) (w : Writer) (imm : M.Mem)
      (key : Bytes)
      → db.closed ≡ false
      → db.imm_mem ≡ some imm
      → Holds M L res.reader imm
      → get_key M false key (install M res edit w db) ≡ get_key M false key db
  unfolding install
  get_key-install db res edit w imm key is_open frozen h =
      get_open M (install M res edit w db) key is_open
      ∙ after_mem-install (M.get key db.seqno db.mem) db res edit w imm key frozen h
      ∙ sym (get_open M db key is_open)

  after_imm-manifest :
      (x : Lookup) (db : Db M) (w : Writer) (key : Bytes)
      → after_imm M x (record db { manifest = w }) key ≡ after_imm M x db key
  unfolding after_imm
  after_imm-manifest (found v) db w key = refl
  after_imm-manifest deleted db w key = refl
  after_imm-manifest missing db w key = refl

  after_mem-manifest :
      (x : Lookup) (db : Db M) (w : Writer) (key : Bytes)
      → after_mem M x (record db { manifest = w }) key ≡ after_mem M x db key
  unfolding after_mem
  after_mem-manifest (found v) db w key = refl
  after_mem-manifest deleted db w key = refl
  after_mem-manifest missing db w key =
      after_imm-manifest (look_in_imm M db.imm_mem key db.seqno) db w key

  get_key-manifest :
      (db : Db M) (w : Writer) (key : Bytes)
      → db.closed ≡ false
      → get_key M false key (record db { manifest = w }) ≡ get_key M false key db
  get_key-manifest db w key is_open =
      get_open M (record db { manifest = w }) key is_open
      ∙ after_mem-manifest (M.get key db.seqno db.mem) db w key
      ∙ sym (get_open M db key is_open)

  get_key-after_manifest :
      (x : Result ManifestError (Unit {0}) × Writer) (db : Db M) (res : SstWriteResult)
      (edit : VersionEdit) (imm : M.Mem) (key : Bytes)
      → db.closed ≡ false
      → db.imm_mem ≡ some imm
      → Holds M L res.reader imm
      → get_key M false key (after_manifest M res edit x db).1 ≡ get_key M false key db
  unfolding after_manifest
  get_key-after_manifest (ok _, w) db res edit imm key is_open frozen h =
      get_key-install db res edit w imm key is_open frozen h
  get_key-after_manifest (err e, w) db res edit imm key is_open frozen h =
      get_key-manifest db w key is_open
  get_key-after_manifest (panic, w) db res edit imm key is_open frozen h =
      get_key-manifest db w key is_open

  -- On an open database with a frozen memtable, publishing a table that holds the entries of that
  -- memtable, in key order and with sequence numbers below 2^64, changes no read, whether it
  -- succeeds or fails.
  pub get_key-publish_flushed_sst :
      (fault : Bool) (db : Db M) (res : SstWriteResult) (imm : M.Mem) (key : Bytes)
      → db.closed ≡ false
      → db.imm_mem ≡ some imm
      → Holds M L res.reader imm
      → get_key M false key (publish_flushed_sst M fault res db).1 ≡ get_key M false key db
  unfolding publish_flushed_sst
  get_key-publish_flushed_sst true db res imm key is_open frozen h = refl
  get_key-publish_flushed_sst false db res imm key is_open frozen h =
      get_key-after_manifest (append (encode_edit (flush_edit M res db)) db.manifest) db res
        (flush_edit M res db) imm key is_open frozen h
