-- ===== src/Engine/Reads.antt =====
-- Reading what was written: the entries of the memtables and tables at a sequence number.
pub mod Refines
use mathlib.Core.List.{reverse}
use beachdb.Prelude.{
  ℕ, ◌+◌, ◌^◌, ◌≤◌, ◌<◌, ◌≡◌, ◌≢◌, refl, sym, ap, ◌∙◌, arith, Ordering, Bool, true, false, List, [],
  ◌∷◌, Bytes, All, Option, none, some, leb, Bool-cases, inl, inr, Result, subst,
}
use beachdb.Coding.{IsU64}
use beachdb.Keys.{InternalKey, compare_keys, compare_bytes}
use beachdb.Keys.Order.{compare_bytes_refl}
use beachdb.Record.{bytes_equal}
use beachdb.Record.Codec.{eq_of_bytes_equal}
use beachdb.Sstable.Errors.{SstError}
use beachdb.Sstable.Block.{BlockEntry}
use beachdb.Sstable.Reader.{Reader, Scanned, seen, visible, scan_block, get}
use beachdb.Sstable.Reader.Scan.{IsAscending}
use beachdb.Sstable.Reader.Blocks.{answer, entries_of, Stores}
use beachdb.Sstable.Reader.Lookup.{get-eq-scan}
use beachdb.Memtable.{Memtable, IsMemtable, Lookup, insert_entry}
use beachdb.Memtable.Sorted.{
  IsSorted, insert_entry-IsSorted, insert_entry_lt, insert_entry_ge, Lt-cases, of_scanned,
  lookup-eq-scan,
}
use beachdb.Engine.{Db, search_ssts, after_sst}

-- No entry is newer than the sequence number.
abbrev pub IsBounded : ℕ → List BlockEntry → Type 0
IsBounded seqno es = All (λ e. e.key.seqno ≤ seqno) es

All-weaken : (s t : ℕ) (es : List BlockEntry) → s ≤ t → IsBounded s es → IsBounded t es
All-weaken s t [] le h = tt
All-weaken s t (e ∷ es) le (h, hs) = (omega arith, All-weaken s t es le hs)

pub insert_entry-IsBounded :
    (s : ℕ) (e : BlockEntry) (xs : List BlockEntry)
    → e.key.seqno ≤ s
    → IsBounded s xs
    → IsBounded s (insert_entry e xs)
insert_entry-IsBounded s e [] le h = unfold insert_entry in (le, tt)
insert_entry-IsBounded s e (x ∷ xs) le (h, hs) = elim (Lt-cases (compare_keys x.key e.key)) [
  | inl lt ↦ rw (insert_entry_lt e x xs lt) (h, insert_entry-IsBounded s e xs le hs)
  | inr ge ↦ rw (insert_entry_ge e x xs ge) (le, (h, hs))
]

module _ (user_key : Bytes) where
  -- A later sequence number sees the same of entries that are all visible.
  pub scan_block_later :
      (s t : ℕ) (es : List BlockEntry)
      → s ≤ t
      → IsBounded s es
      → scan_block es user_key t ≡ scan_block es user_key s
  unfolding scan_block
  scan_block_later s t [] le h = refl
  scan_block_later s t (e ∷ es) le (h, hs) =
      elim (Bool-cases (bytes_equal e.key.user_key user_key)) [
        | inr other ↦ rw other (scan_block_later s t es le hs)
        | inl same ↦
            let here : leb e.key.seqno s ≡ true = ground (arith, h) in
            let there : leb e.key.seqno t ≡ true = ground (arith, h, le) in
            rw (same, here, there) refl
      ]

  scan_insert_other :
      (s : ℕ) (e : BlockEntry) (xs : List BlockEntry)
      → bytes_equal e.key.user_key user_key ≡ false
      → scan_block (insert_entry e xs) user_key s ≡ scan_block xs user_key s
  unfolding scan_block
  scan_insert_other s e [] other = unfold insert_entry in rw other refl
  scan_insert_other s e (x ∷ xs) other = elim (Lt-cases (compare_keys x.key e.key)) [
    | inr ge ↦ rw (insert_entry_ge e x xs ge, other) refl
    | inl lt ↦ rw (insert_entry_lt e x xs lt, scan_insert_other s e xs other) refl
  ]

  other_version :
      (e x : InternalKey)
      → bytes_equal e.user_key user_key ≡ true
      → x.seqno < e.seqno
      → compare_keys x e ≡ Ordering.lt
      → bytes_equal x.user_key user_key ≡ false
  unfolding compare_keys
  other_version e x same older lt = elim (Bool-cases (bytes_equal x.user_key user_key)) [
    | inr other ↦ other
    | inl also ↦
        let eq : compare_bytes x.user_key e.user_key ≡ Ordering.eq =
          ap (compare_bytes x.user_key) (
            eq_of_bytes_equal e.user_key user_key same
            ∙ sym (eq_of_bytes_equal x.user_key user_key also))
          ∙ compare_bytes_refl x.user_key in
        absurd (ground (arith, eq, lt, older))
  ]

  scan_insert_newest :
      (s t : ℕ) (e : BlockEntry) (xs : List BlockEntry)
      → bytes_equal e.key.user_key user_key ≡ true
      → s < e.key.seqno
      → e.key.seqno ≤ t
      → IsBounded s xs
      → scan_block (insert_entry e xs) user_key t ≡ visible e
  unfolding scan_block
  scan_insert_newest s t e [] same new le h =
      let here : leb e.key.seqno t ≡ true = ground (arith, le) in
      unfold insert_entry in rw (same, here) refl
  scan_insert_newest s t e (x ∷ xs) same new le (h, hs) =
      elim (Lt-cases (compare_keys x.key e.key)) [
        | inr ge ↦
            let here : leb e.key.seqno t ≡ true = ground (arith, le) in
            rw (insert_entry_ge e x xs ge, same, here) refl
        | inl lt ↦
            rw
              (insert_entry_lt e x xs lt, other_version e.key x.key same (omega (arith, h, new)) lt)
              (scan_insert_newest s t e xs same new le hs)
      ]

-- A table with entries in key order, none of them newer than the sequence number.
pub record IsBelow (s : ℕ) (r : Reader) : Type 0 where
  pub blocks : List (List BlockEntry)
  pub stored : Stores r r.index_entries blocks
  pub ascending : IsAscending (entries_of blocks)
  pub bounded : IsBounded s (entries_of blocks)

All-IsU64 :
    (s : ℕ) (es : List BlockEntry) → IsU64 s → IsBounded s es → All (λ e. IsU64 e.key.seqno) es
All-IsU64 s [] small h = tt
All-IsU64 s (e ∷ es) small (h, hs) = (omega (arith, h), All-IsU64 s es small hs)

get-table :
    (s t : ℕ) (r : Reader) (key : Bytes) (b : IsBelow s r)
    → IsU64 s
    → get r key t ≡ answer (scan_block (entries_of b.blocks) key t)
get-table s t r key b small =
    get-eq-scan key r t b.blocks b.stored b.ascending
      (All-IsU64 s (entries_of b.blocks) small b.bounded)

pub get-later :
    (s t : ℕ) (r : Reader) (key : Bytes) → IsBelow s r → s ≤ t → IsU64 s → get r key t ≡ get r key s
get-later s t r key b le small =
    get-table s t r key b small
    ∙ ap answer (scan_block_later key s t (entries_of b.blocks) le b.bounded)
    ∙ sym (get-table s s r key b small)

pub IsBelow-later : (s t : ℕ) (r : Reader) → s ≤ t → IsBelow s r → IsBelow t r
IsBelow-later s t r le b = record {
  blocks = b.blocks;
  stored = b.stored;
  ascending = b.ascending;
  bounded = All-weaken s t (entries_of b.blocks) le b.bounded;
}

-- A memtable that holds entries in key order, none of them newer than the sequence number.
module _ (M : Memtable) (L : IsMemtable M) where
  pub record IsFilled (s : ℕ) (m : M.Mem) : Type 0 where
    pub valid : L.IsValid m
    pub sorted : IsSorted (M.entries m)
    pub bounded : IsBounded s (M.entries m)

  pub get-scan :
      (s t : ℕ) (m : M.Mem) (key : Bytes)
      → IsFilled s m
      → M.get key t m ≡ of_scanned (scan_block (M.entries m) key t)
  get-scan s t m key f = L.get-entries key t m f.valid ∙ lookup-eq-scan key t (M.entries m) f.sorted

  pub IsFilled-later : (s t : ℕ) (m : M.Mem) → s ≤ t → IsFilled s m → IsFilled t m
  IsFilled-later s t m le f = record {
    valid = f.valid;
    sorted = f.sorted;
    bounded = All-weaken s t (M.entries m) le f.bounded;
  }

  pub mem-later :
      (s t : ℕ) (m : M.Mem) (key : Bytes) → s ≤ t → IsFilled s m → M.get key t m ≡ M.get key s m
  mem-later s t m key le f =
      get-scan s t m key f
      ∙ ap of_scanned (scan_block_later key s t (M.entries m) le f.bounded)
      ∙ sym (get-scan s s m key f)

  module _ (s t : ℕ) (k : InternalKey) (v : Bytes) (m : M.Mem) (key : Bytes)
      (f : IsFilled s m) where
    abbrev entry : BlockEntry
    entry = record { key = k; value = v }

    pub put-IsFilled : s ≤ t → k.seqno ≤ t → IsFilled t (M.put k v m)
    put-IsFilled le here =
        let eq = L.entries-put k v m f.valid in
        record {
          valid = L.put-IsValid k v m f.valid;
          sorted = subst IsSorted (sym eq) (insert_entry-IsSorted entry (M.entries m) f.sorted);
          bounded = subst (IsBounded t) (sym eq) (
              insert_entry-IsBounded t entry (M.entries m) here
                (All-weaken s t (M.entries m) le f.bounded));
        }

    -- The scan of a memtable behind a put of a new version.
    put-scan :
        s ≤ t
        → k.seqno ≤ t
        → M.get key t (M.put k v m)
          ≡ of_scanned (scan_block (insert_entry entry (M.entries m)) key t)
    put-scan le here =
        get-scan t t (M.put k v m) key (put-IsFilled le here)
        ∙ ap (λ (es : List BlockEntry). of_scanned (scan_block es key t))
            (L.entries-put k v m f.valid)

    pub get-put_same :
        bytes_equal k.user_key key ≡ true
        → s < k.seqno
        → k.seqno ≤ t
        → M.get key t (M.put k v m) ≡ of_scanned (visible entry)
    get-put_same same new here =
        put-scan (omega arith) here
        ∙ ap of_scanned (scan_insert_newest key s t entry (M.entries m) same new here f.bounded)

    pub get-put_other :
        bytes_equal k.user_key key ≡ false
        → s ≤ t
        → k.seqno ≤ t
        → M.get key t (M.put k v m) ≡ M.get key s m
    get-put_other other le here =
        put-scan le here
        ∙ ap of_scanned (scan_insert_other key t entry (M.entries m) other)
        ∙ sym (get-scan s t m key f)
        ∙ mem-later s t m key le f
