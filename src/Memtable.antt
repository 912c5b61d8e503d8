-- ===== src/Memtable.antt =====
-- internal/memtable/memtable.go: the interface of a memtable, as a record of its operations, and the
-- laws that the engine relies on. Its iterator, from the first entry to the last, is `entries`.
pub mod Sorted
pub mod Listed
pub mod SkipList
mod Tests
use beachdb.Prelude.{
  ℕ, ◌+◌, ◌≡◌, Ordering, Bool, List, [], ◌∷◌, Bytes, length, ltb, ◌==◌, if◌then◌else◌,
}
use beachdb.Keys.{InternalKey, compare_keys, kind_delete}
use beachdb.Record.{bytes_equal}
use beachdb.Sstable.Block.{BlockEntry}

-- What Get returns: `(nil, false)`, `(nil, true)`, or a value that is not nil.
pub data Lookup : Type 0 where
  missing deleted : Lookup
  found : Bytes → Lookup

pub record Memtable : Type 1 where
  pub Mem : Type 0
  pub new_mem : Mem
  pub put : InternalKey → Bytes → Mem → Mem
  pub get : Bytes → ℕ → Mem → Lookup
  pub entries : Mem → List BlockEntry
  pub size : Mem → ℕ
  pub len : Mem → ℕ

-- Where the skip list's Put links a node: behind the nodes with a smaller key.
unfoldable pub insert_entry : BlockEntry → List BlockEntry → List BlockEntry
insert_entry e [] = e ∷ []
insert_entry e (x ∷ xs) = elim (compare_keys x.key e.key) [
  | Ordering.lt ↦ x ∷ insert_entry e xs
  | _ ↦ e ∷ x ∷ xs
]

-- The zero kind of the search key of Get is not compared.
abbrev pub search_key : Bytes → ℕ → InternalKey
search_key user_key seqno = record { user_key = user_key; seqno = seqno; kind = 0 }

-- The node that Get finds: the first that is not before the search key.
unfoldable pub check_node : BlockEntry → Bytes → ℕ → Lookup
check_node node user_key seqno =
    if bytes_equal node.key.user_key user_key
    then (if ltb seqno node.key.seqno
        then missing
        else if node.key.kind == kind_delete
        then deleted
        else found node.value)
    else missing

unfoldable pub lookup : List BlockEntry → Bytes → ℕ → Lookup
unfolding check_node
lookup [] user_key seqno = missing
lookup (x ∷ xs) user_key seqno = elim (compare_keys x.key (search_key user_key seqno)) [
  | Ordering.lt ↦ lookup xs user_key seqno
  | _ ↦ check_node x user_key seqno
]

-- A memtable of this kind holds the entries that were put into it, in key order, and answers a
-- lookup from them. `IsValid` is its own invariant.
pub record IsMemtable (M : Memtable) : Type 1 where
  pub IsValid : M.Mem → Type 0
  pub new_mem-IsValid : IsValid M.new_mem
  pub put-IsValid : (k : InternalKey) (v : Bytes) (m : M.Mem) → IsValid m → IsValid (M.put k v m)
  pub entries-new_mem : M.entries M.new_mem ≡ []
  pub entries-put :
      (k : InternalKey) (v : Bytes) (m : M.Mem)
      → IsValid m
      → M.entries (M.put k v m) ≡ insert_entry (record { key = k; value = v }) (M.entries m)
  pub get-entries :
      (user_key : Bytes) (seqno : ℕ) (m : M.Mem)
      → IsValid m
      → M.get user_key seqno m ≡ lookup (M.entries m) user_key seqno
  pub len-entries : (m : M.Mem) → IsValid m → M.len m ≡ length (M.entries m)
