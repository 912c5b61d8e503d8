-- ===== src/Sstable/Reader.antt =====
-- internal/sstable/reader.go: opening a table file and point lookups. The file is its bytes; the
-- only failure of a read that is modelled is one that the bytes themselves give, a range outside
-- the file. The reader's lock is left out.
pub mod Scan
pub mod Blocks
pub mod Seek
pub mod Lookup
use beachdb.Prelude.{
  ℕ, zero, suc, ◌+◌, ◌-◌, ◌/◌, ◌^◌, ◌≡◌, Ordering, Bool, true, false, ◌||◌, not, List, [], ◌∷◌,
  ◌++◌, Bytes, Option, none, some, length, take, drop, Result, ok, err, panic, ◌>>=◌, ◌>>◌,
  return_if, index, ltb, leb, ◌==◌, if◌then◌else◌,
}
use beachdb.Keys.{InternalKey, compare_keys, kind_put, kind_delete}
use beachdb.Record.{bytes_equal}
use beachdb.Sstable.Errors.{
  SstError, file_too_small, reader_closed, key_not_found, key_deleted, corrupt_block, corrupt_index,
  corrupt_footer, invalid_block_index,
}
use beachdb.Sstable.Block.{BlockEntry, verify_block_checksum, decode_block_entries}
use beachdb.Sstable.Index.{IndexEntry, decode_index_block}
use beachdb.Sstable.Footer.{Footer, footer_size, decode_footer}

pub record Reader : Type 0 where
  pub file : Bytes
  pub file_size : ℕ
  pub footer : Footer
  pub index_entries : List IndexEntry

-- os.File.ReadAt of `size` bytes: `none` for a negative offset, as an int64, and for a range that
-- the file does not hold. Nothing is read for no bytes.
unfoldable pub read_at : Bytes → ℕ → ℕ → Option Bytes
read_at file offset size =
    if leb (2 ^ 63) offset
    then none
    else if size == 0
    then some []
    else if ltb (length file) (offset + size)
    then none
    else some (take size (drop offset file))

-- `if n != len(b) || err != nil { return e }`
abbrev pub or_corrupt : Option Bytes → SstError → Result SstError Bytes
or_corrupt (some bytes) e = ok bytes
or_corrupt none e = err e

unfoldable pub read_footer : Bytes → Result SstError Footer
unfolding read_at
read_footer file = do
  payload ← or_corrupt (read_at file (length file - footer_size) footer_size) corrupt_footer
  decode_footer payload

unfoldable pub read_index_entries : Bytes → Footer → Result SstError (List IndexEntry)
unfolding read_at
read_index_entries file footer = do
  payload ← or_corrupt (read_at file footer.index_offset footer.index_size) corrupt_index
  decode_index_block payload

unfoldable pub open_reader : Bytes → Result SstError Reader
unfolding read_footer read_index_entries
open_reader file = do
  return_if (ltb (length file) footer_size) file_too_small
  footer ← read_footer file
  index_entries ← read_index_entries file footer
  ok (record {
    file = file;
    file_size = length file;
    footer = footer;
    index_entries = index_entries;
  })

unfoldable pub read_block : Reader → ℕ → ℕ → Result SstError Bytes
unfolding read_at
read_block r offset size = do
  block_data ← or_corrupt (read_at r.file offset size) corrupt_block
  verify_block_checksum block_data

unfoldable pub load_block_entries : Reader → ℕ → Result SstError (List BlockEntry)
unfolding read_block
load_block_entries r block_idx = do
  return_if (leb (length r.index_entries) block_idx) invalid_block_index
  entry ← index r.index_entries block_idx
  block ← read_block r entry.offset entry.size
  decode_block_entries block

-- The synthetic key that sorts before every version of a user key.
unfoldable pub max_lookup_key : Bytes → InternalKey
max_lookup_key user_key = record { user_key = user_key; seqno = 2 ^ 64 - 1; kind = kind_put }

-- sort.Search over `[i, j)`; each round at least halves the range, so `j - i` rounds are enough.
unfoldable pub search_range : ℕ → (ℕ → Bool) → ℕ → ℕ → ℕ
search_range zero f i j = i
search_range (suc fuel) f i j =
    let h = (i + j) / 2 in
    let rest = search_range fuel f (if f h then i else h + 1) (if f h then h else j) in
    if ltb i j then rest else i

-- `r.index[i].lastKey.Compare(synthetic) >= 0`; out of range it is never asked.
unfoldable pub at_least : InternalKey → Option IndexEntry → Bool
at_least key none = true
at_least key (some entry) = elim (compare_keys entry.last_key key) [
  | Ordering.lt ↦ false
  | _ ↦ true
]

unfoldable pub entry_at : List IndexEntry → ℕ → Option IndexEntry
entry_at [] i = none
entry_at (e ∷ es) zero = some e
entry_at (e ∷ es) (suc i) = entry_at es i

unfoldable pub seek_block : List IndexEntry → Bytes → ℕ
unfolding search_range at_least entry_at
seek_block entries user_key =
    search_range (length entries) (λ i. at_least (max_lookup_key user_key) (entry_at entries i)) 0
      (length entries)

-- What a block says of a user key at a sequence number: a visible put, a visible tombstone, versions
-- that are all too new, or no version.
pub data Scanned : Type 0 where
  value_at : Bytes → Scanned
  tombstone absent too_new : Scanned

abbrev pub seen : Scanned → Scanned
seen absent = too_new
seen (value_at v) = value_at v
seen tombstone = tombstone
seen too_new = too_new

abbrev pub visible : BlockEntry → Scanned
visible entry = if entry.key.kind == kind_delete then tombstone else value_at entry.value

unfoldable pub scan_block : List BlockEntry → Bytes → ℕ → Scanned
scan_block [] user_key seqno = absent
scan_block (entry ∷ entries) user_key seqno =
    let rest = scan_block entries user_key seqno in
    if not (bytes_equal entry.key.user_key user_key)
    then rest
    else if leb entry.key.seqno seqno
    then visible entry
    else seen rest

-- The result of the scan of one block, and the loop over the blocks from a position on.
unfoldable pub get_from : Reader → List IndexEntry → Bytes → ℕ → Result SstError Bytes
unfolding read_block scan_block
get_from r [] user_key seqno = err key_not_found
get_from r (entry ∷ entries) user_key seqno = do
  block ← read_block r entry.offset entry.size
  block_entries ← decode_block_entries block
  elim (scan_block block_entries user_key seqno) [
    | absent ↦ err key_not_found
    | tombstone ↦ err key_deleted
    | value_at v ↦ ok v
    | too_new ↦ get_from r entries user_key seqno
  ]

-- With no entry, and with no block at or after the key, the loop has nothing to visit.
unfoldable pub get : Reader → Bytes → ℕ → Result SstError Bytes
unfolding get_from seek_block
get r user_key seqno =
    get_from r (drop (seek_block r.index_entries user_key) r.index_entries) user_key seqno
