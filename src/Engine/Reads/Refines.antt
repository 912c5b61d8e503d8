-- ===== src/Engine/Reads/Refines.antt =====
-- The database refines a map from keys to values: a batch changes what a read gives as it changes
-- the map.
use mathlib.Core.List.{reverse}
use beachdb.Prelude.{
  ℕ, ◌+◌, ◌%◌, ◌^◌, ◌≤◌, ◌<◌, ◌≡◌, refl, sym, ap, ◌∙◌, arith, false, List, [], ◌∷◌, Bytes, length,
  All, Option, none, some, Result, ok, err, if◌then◌else◌, Bool-cases, inl, inr,
}
use beachdb.Coding.{IsU64}
use beachdb.Keys.{InternalKey}
use beachdb.Record.{bytes_equal}
use beachdb.Batch.{Operation, OpType, op_put, op_delete}
use beachdb.Sstable.Errors.{SstError}
use beachdb.Sstable.Reader.{Reader, visible, get}
use beachdb.Memtable.{Memtable, IsMemtable, Lookup, missing, deleted, found}
use beachdb.Memtable.Sorted.{of_scanned}
use beachdb.Engine.{
  Db, DbError, not_found, kind_of, apply_operation, apply_operations, after_sst, search_ssts,
  after_imm, look_in_imm, after_mem, get_key,
}
use beachdb.Engine.Reads.{
  IsBelow, IsBelow-later, get-later, IsFilled, IsFilled-later, mem-later, put-IsFilled,
  get-put_same, get-put_other,
}

-- What a read of the key gives once the operation is applied, where it gave `before`.
abbrev pub step : Operation → Bytes → Result DbError Bytes → Result DbError Bytes
step op key before =
    if bytes_equal op.key key
    then elim op.op_type [ op_put ↦ ok op.value | op_delete ↦ err not_found ]
    else before

-- The operations of a batch, one after the other.
abbrev pub steps : List Operation → Bytes → Result DbError Bytes → Result DbError Bytes
steps [] key before = before
steps (op ∷ ops) key before = steps ops key (step op key before)

pub get_open :
    (M : Memtable) (db : Db M) (key : Bytes)
    → db.closed ≡ false
    → get_key M false key db ≡ after_mem M (M.get key db.seqno db.mem) db key
unfolding get_key
get_open M db key is_open = rw is_open refl

module _ (M : Memtable) (L : IsMemtable M) where
  abbrev pub IsFilledImm : ℕ → Option M.Mem → Type 0
  IsFilledImm s none = Unit
  IsFilledImm s (some m) = IsFilled M L s m

  -- The memtables and tables hold sorted entries, none of them newer than the database's sequence
  -- number.
  pub record IsConsistent (db : Db M) : Type 0 where
    pub mem : IsFilled M L db.seqno db.mem
    pub imm_mem : IsFilledImm db.seqno db.imm_mem
    pub tables : All (IsBelow db.seqno) (reverse db.ssts)

  IsFilledImm-later : (s t : ℕ) (m : Option M.Mem) → s ≤ t → IsFilledImm s m → IsFilledImm t m
  IsFilledImm-later s t none le f = tt
  IsFilledImm-later s t (some m) le f = IsFilled-later M L s t m le f

  tables-later : (s t : ℕ) (rs : List Reader) → s ≤ t → All (IsBelow s) rs → All (IsBelow t) rs
  tables-later s t [] le h = tt
  tables-later s t (r ∷ rs) le (h, hs) = (IsBelow-later s t r le h, tables-later s t rs le hs)

  search-later :
      (s t : ℕ) (rs : List Reader) (key : Bytes)
      → s ≤ t
      → IsU64 s
      → All (IsBelow s) rs
      → search_ssts M rs key t ≡ search_ssts M rs key s
  unfolding search_ssts
  search-later s t [] key le small h = refl
  search-later s t (r ∷ rs) key le small (h, hs) =
      ap (λ (x : Result SstError Bytes). after_sst M x (search_ssts M rs key t))
        (get-later s t r key h le small)
      ∙ ap (after_sst M (get r key s)) (search-later s t rs key le small hs)

  look_in_imm-later :
      (s t : ℕ) (m : Option M.Mem) (key : Bytes)
      → s ≤ t
      → IsFilledImm s m
      → look_in_imm M m key t ≡ look_in_imm M m key s
  unfolding look_in_imm
  look_in_imm-later s t none key le f = refl
  look_in_imm-later s t (some m) key le f = mem-later M L s t m key le f

  -- The sequence number behind one more operation.
  next_seqno : (db : Db M) → db.seqno + 1 < 2 ^ 64 → (db.seqno + 1) % 2 ^ 64 ≡ db.seqno + 1
  next_seqno db small = omega (arith, small)

  after_imm-later :
      (x : Lookup) (db : Db M) (t : ℕ) (m : M.Mem) (key : Bytes)
      → db.seqno ≤ t
      → IsU64 db.seqno
      → All (IsBelow db.seqno) (reverse db.ssts)
      → after_imm M x (record db { seqno = t; mem = m }) key ≡ after_imm M x db key
  unfolding after_imm
  after_imm-later (found v) db t m key le small h = refl
  after_imm-later deleted db t m key le small h = refl
  after_imm-later missing db t m key le small h =
      search-later db.seqno t (reverse db.ssts) key le small h

  after_mem-later :
      (x : Lookup) (db : Db M) (t : ℕ) (m : M.Mem) (key : Bytes)
      → db.seqno ≤ t
      → IsU64 db.seqno
      → IsConsistent db
      → after_mem M x (record db { seqno = t; mem = m }) key ≡ after_mem M x db key
  unfolding after_mem
  after_mem-later (found v) db t m key le small c = refl
  after_mem-later deleted db t m key le small c = refl
  after_mem-later missing db t m key le small c =
      ap (λ (x : Lookup). after_imm M x (record db { seqno = t; mem = m }) key)
        (look_in_imm-later db.seqno t db.imm_mem key le c.imm_mem)
      ∙ after_imm-later (look_in_imm M db.imm_mem key db.seqno) db t m key le small c.tables

  after-visible :
      (ty : OpType) (user_key value : Bytes) (n : ℕ) (db : Db M) (key : Bytes)
      → after_mem M
          (of_scanned (
            visible (record {
              key = record { user_key = user_key; seqno = n; kind = kind_of ty };
              value = value;
            })))
          db
          key
        ≡ elim ty [ op_put ↦ ok value | op_delete ↦ err not_found ]
  unfolding after_mem kind_of
  after-visible op_put user_key value n db key = refl
  after-visible op_delete user_key value n db key = refl

  -- An operation keeps the database consistent.
  pub apply_operation-IsConsistent :
      (op : Operation) (db : Db M)
      → db.seqno + 1 < 2 ^ 64
      → IsConsistent db
      → IsConsistent (apply_operation M op db)
  unfolding apply_operation
  apply_operation-IsConsistent op db small c =
      let t = (db.seqno + 1) % 2 ^ 64 in
      let le : db.seqno ≤ t = omega (arith, next_seqno db small) in
      record {
        mem =
            put-IsFilled M L db.seqno t
              (record { user_key = op.key; seqno = t; kind = kind_of op.op_type }) op.value db.mem
              [] c.mem le (omega arith);
        imm_mem = IsFilledImm-later db.seqno t db.imm_mem le c.imm_mem;
        tables = tables-later db.seqno t (reverse db.ssts) le c.tables;
      }

  get-step :
      (op : Operation) (db : Db M) (key : Bytes)
      → db.closed ≡ false
      → db.seqno + 1 < 2 ^ 64
      → IsConsistent db
      → get_key M false key (apply_operation M op db) ≡ step op key (get_key M false key db)
  unfolding apply_operation
  get-step op db key is_open small c =
      let t = (db.seqno + 1) % 2 ^ 64 in
      let k : InternalKey = record { user_key = op.key; seqno = t; kind = kind_of op.op_type } in
      let m = M.put k op.value db.mem in
      let db' : Db M = record db { seqno = t; mem = m } in
      let next = next_seqno db small in
      let le : db.seqno ≤ t = omega (arith, next) in
      elim (Bool-cases (bytes_equal op.key key)) [
        | inl same ↦
            get_open M db' key is_open
            ∙ ap (λ (x : Lookup). after_mem M x db' key)
                (get-put_same M L db.seqno t k op.value db.mem key c.mem same (omega (arith, next))
                  (omega arith))
            ∙ after-visible op.op_type op.key op.value t db' key
            ∙ rw same refl
        | inr other ↦
            get_open M db' key is_open
            ∙ ap (λ (x : Lookup). after_mem M x db' key)
                (get-put_other M L db.seqno t k op.value db.mem key c.mem other le (omega arith))
            ∙ after_mem-later (M.get key db.seqno db.mem) db t m key le (omega (arith, small)) c
            ∙ sym (get_open M db key is_open)
            ∙ rw other refl
      ]

  pub apply_operation-closed :
      (op : Operation) (db : Db M) → (apply_operation M op db).closed ≡ db.closed
  unfolding apply_operation
  apply_operation-closed op db = refl

  apply_operation-seqno :
      (op : Operation) (db : Db M)
      → db.seqno + 1 < 2 ^ 64
      → (apply_operation M op db).seqno ≡ db.seqno + 1
  unfolding apply_operation
  apply_operation-seqno op db small = next_seqno db small

  -- Applying operations keeps a database consistent, as long as its sequence numbers stay below
  -- 2^64: the memtables and tables hold entries in key order, none of them newer than the
  -- database's sequence number.
  pub apply_operations-IsConsistent :
      (ops : List Operation) (db : Db M)
      → db.seqno + length ops < 2 ^ 64
      → IsConsistent db
      → IsConsistent (apply_operations M ops db)
  unfolding apply_operations
  apply_operations-IsConsistent [] db small c = c
  apply_operations-IsConsistent (op ∷ ops) db small c =
      apply_operations-IsConsistent ops (apply_operation M op db)
        (omega (arith, small, apply_operation-seqno op db (omega (arith, small))))
        (apply_operation-IsConsistent op db (omega (arith, small)) c)

  -- Behind the operations of a batch, on an open and consistent database whose sequence numbers
  -- stay below 2^64, a read of any key gives what the last operation on that key says, a value or
  -- nothing, and what it gave before if none names the key.
  pub get_key-apply_operations :
      (ops : List Operation) (db : Db M) (key : Bytes)
      → db.closed ≡ false
      → db.seqno + length ops < 2 ^ 64
      → IsConsistent db
      → get_key M false key (apply_operations M ops db) ≡ steps ops key (get_key M false key db)
  unfolding apply_operations
  get_key-apply_operations [] db key is_open small c = refl
  get_key-apply_operations (op ∷ ops) db key is_open small c =
      get_key-apply_operations ops (apply_operation M op db) key
        (apply_operation-closed op db ∙ is_open)
        (omega (arith, small, apply_operation-seqno op db (omega (arith, small))))
        (apply_operation-IsConsistent op db (omega (arith, small)) c)
      ∙ ap (steps ops key) (get-step op db key is_open (omega (arith, small)) c)
