-- ===== src/Engine/Flush/Reads.antt =====
-- A flush as readers and waiting writers see it.
use beachdb.Prelude.{
  ◌+◌, ◌*◌, ◌^◌, ◌≡◌, ◌<◌, refl, sym, ◌∙◌, ap, subst, Bool, true, false, List, [], ◌∷◌, Bytes,
  Option, some, All, All-map, Result, ok, err, panic, if◌then◌else◌,
}
use beachdb.Coding.{IsU64}
use beachdb.Keys.Order.{KeyLe}
use beachdb.Sstable.Block
use beachdb.Sstable.Block.{BlockEntry}
use beachdb.Sstable.Reader.Scan.{KeyLt, IsAscending}
use beachdb.Sstable.Writer.Layout
use beachdb.Memtable.{Memtable, IsMemtable, Lookup, missing, deleted, found}
use beachdb.Memtable.Sorted.{IsSorted, KeyLe-of_lt}
use beachdb.Engine.{
  Db, DbError, db_closed, call_canceled, get_key, after_mem, after_imm, look_in_imm,
}
use beachdb.Engine.Publish.{SstWriteResult, publish_flushed_sst}
use beachdb.Engine.Publish.Reads.{Holds, get_key-publish_flushed_sst}
use beachdb.Engine.Flush.{write_ss_table, Job, record_failure, after_write, flush_frozen}
use beachdb.Engine.Flush.Writes.{IsTableOf, write_ss_table-IsTableOf}

IsSorted-of_IsAscending : (es : List BlockEntry) → IsAscending es → IsSorted es
IsSorted-of_IsAscending [] h = tt
IsSorted-of_IsAscending (e ∷ es) (h, hs) = (
  All-map (λ x. KeyLt e.key x.key) (λ x. KeyLe e.key x.key) es (λ x lt. KeyLe-of_lt e.key x.key lt)
      h,
  IsSorted-of_IsAscending es hs,
)

-- Entries that a table file can hold.
pub record IsFlushable (entries : List BlockEntry) : Type 0 where
  pub some_entry : Layout.IsSome entries
  pub ascending : IsAscending entries
  pub fits : All Block.IsEncodable entries
  pub small : 2 * Layout.cost entries + 8 < 2 ^ 32

module _ (M : Memtable) (L : IsMemtable M) where
  Holds-of_IsTableOf :
      (res : SstWriteResult) (imm : M.Mem)
      → L.IsValid imm
      → IsFlushable (M.entries imm)
      → IsTableOf res (M.entries imm)
      → Holds M L res.reader imm
  Holds-of_IsTableOf res imm v f t = record {
    blocks = t.blocks;
    stored = t.stored;
    ascending = subst IsAscending (sym t.same) f.ascending;
    small = subst (All (λ e. IsU64 e.key.seqno)) (sym t.same) (
        All-map Block.IsEncodable (λ e. IsU64 e.key.seqno) (M.entries imm) (λ e fit. fit.key.seqno)
          f.fits);
    same = t.same;
    valid = v;
    sorted = IsSorted-of_IsAscending (M.entries imm) f.ascending;
  }

  after_imm-failed :
      (x : Lookup) (db : Db M) (e : Option DbError) (key : Bytes)
      → after_imm M x (record db { flush_err = e }) key ≡ after_imm M x db key
  unfolding after_imm
  after_imm-failed (found v) db e key = refl
  after_imm-failed deleted db e key = refl
  after_imm-failed missing db e key = refl

  after_mem-failed :
      (x : Lookup) (db : Db M) (e : Option DbError) (key : Bytes)
      → after_mem M x (record db { flush_err = e }) key ≡ after_mem M x db key
  unfolding after_mem
  after_mem-failed (found v) db e key = refl
  after_mem-failed deleted db e key = refl
  after_mem-failed missing db e key =
      after_imm-failed (look_in_imm M db.imm_mem key db.seqno) db e key

  get_key-failed :
      (db : Db M) (e : Option DbError) (key : Bytes)
      → get_key M false key (record db { flush_err = e }) ≡ get_key M false key db
  unfolding get_key
  get_key-failed db e key =
      ap (λ r. if db.closed then err db_closed else if false then err call_canceled else r)
        (after_mem-failed (M.get key db.seqno db.mem) db e key)

  get_key-record_failure :
      (r : Result DbError (Unit {0})) (db : Db M) (key : Bytes)
      → get_key M false key (record_failure M (r, db)).1 ≡ get_key M false key db
  unfolding record_failure
  get_key-record_failure (ok u) db key = refl
  get_key-record_failure (err e) db key = get_key-failed db (some e) key
  get_key-record_failure panic db key = refl

  module _ (job : Job M) (db : Db M) (imm : M.Mem) (key : Bytes)
      (is_open : (job.meanwhile db).closed ≡ false) (frozen : (job.meanwhile db).imm_mem ≡ some imm)
      (valid : L.IsValid imm) (flushable : IsFlushable (M.entries imm)) where
    after_write-reads :
        (r : Result DbError SstWriteResult)
        → ((res : SstWriteResult) → r ≡ ok res → Holds M L res.reader imm)
        → get_key M false key (after_write M job.publish_fault r (job.meanwhile db)).1
          ≡ get_key M false key (job.meanwhile db)
    unfolding after_write
    after_write-reads (ok res) holds =
        let db' = job.meanwhile db in
        let p = publish_flushed_sst M job.publish_fault res db' in
        get_key-record_failure p.0 p.1 key
        ∙ get_key-publish_flushed_sst M L job.publish_fault db' res imm key is_open frozen
            (holds res refl)
    after_write-reads (err e) holds = get_key-record_failure (err e) (job.meanwhile db) key
    after_write-reads panic holds = refl

    written-Holds :
        (fault : Bool) (res : SstWriteResult)
        → write_ss_table fault job.block_size (M.entries imm) ≡ ok res
        → Holds M L res.reader imm
    written-Holds true res e = absurd (unfold write_ss_table in cc e)
    written-Holds false res e =
        let f = flushable in
        let (res', run, t) =
          write_ss_table-IsTableOf job.block_size (M.entries imm) f.some_entry f.ascending f.fits
            f.small in
        let same : res' ≡ res = ok_inj res' res (sym run ∙ e) in
        Holds-of_IsTableOf res imm valid f
          (subst (λ (x : SstWriteResult). IsTableOf x (M.entries imm)) same t)
      where
        ok_inj :
            (a b : SstWriteResult) → ◌≡◌ {A = Result DbError SstWriteResult} (ok a) (ok b) → a ≡ b
        ok_inj a b p = cc

    -- Let a valid frozen memtable hold entries that a table file can hold, and let the database be
    -- open with that memtable frozen after what others did while the lock was released. Then the
    -- flush changes no read, whether it succeeds, fails to write or fails to publish.
    pub get_key-flush_frozen :
        get_key M false key (flush_frozen M job imm db).1 ≡ get_key M false key (job.meanwhile db)
    unfolding flush_frozen
    get_key-flush_frozen =
        after_write-reads (write_ss_table job.write_fault job.block_size (M.entries imm))
          (written-Holds job.write_fault)
