-- ===== src/Engine/Names.antt =====
-- engine/db.go: the names of table and manifest files, and what depends on the names in a directory.
-- A name is its bytes; a directory is the list of its entries. `%0*d`, filepath.Ext and
-- strconv.ParseUint are written out for the calls that the code makes.
pub mod Decimal
pub mod Orphans
pub mod Fresh
mod Tests
use beachdb.Prelude.{
  ℕ, zero, suc, ◌+◌, ◌-◌, ◌*◌, ◌/◌, ◌%◌, ◌^◌, Bool, true, false, not, ◌&&◌, ◌||◌, List, [], ◌∷◌,
  ◌++◌, Bytes, Option, none, some, length, take, replicate, Result, ok, err, panic, ltb, leb, ◌==◌,
  if◌then◌else◌,
}
use beachdb.Record.{bytes_equal}
use beachdb.Sstable.Reader.{Reader, open_reader}
use beachdb.Manifest.Edit.{FileMetadata}
use beachdb.Manifest.Version.{Version, all_files, contains}
use beachdb.Engine.{DbError, missing_file, not_a_file}
use beachdb.Engine.Flush.{wrap_sst}

abbrev pub sstable_file_ext : Bytes
sstable_file_ext = b'.' ∷ b's' ∷ b's' ∷ b't' ∷ []

abbrev pub sstable_file_id_width : ℕ
sstable_file_id_width = 20

abbrev pub manifest_file_prefix : Bytes
manifest_file_prefix = b'M' ∷ b'A' ∷ b'N' ∷ b'I' ∷ b'F' ∷ b'E' ∷ b'S' ∷ b'T' ∷ b'-' ∷ []

abbrev pub manifest_file_id_width : ℕ
manifest_file_id_width = 6

-- The digits of a number. Each round takes a digit, so as many rounds as the number, and one, are
-- enough.
unfoldable pub digits : ℕ → ℕ → Bytes
digits zero n = []
digits (suc fuel) n =
    let more = digits fuel (n / 10) ++ ((b'0' + n % 10) ∷ []) in
    if ltb n 10 then (b'0' + n) ∷ [] else more

-- `fmt.Sprintf("%0*d", width, id)`
unfoldable pub padded : ℕ → ℕ → Bytes
unfolding digits
padded width id = let text = digits (id + 1) id in replicate (width - length text) b'0' ++ text

unfoldable pub build_sst_file_name : ℕ → Bytes
unfolding padded
build_sst_file_name id = padded sstable_file_id_width id ++ sstable_file_ext

unfoldable pub build_manifest_file_name : ℕ → Bytes
unfolding padded
build_manifest_file_name id = manifest_file_prefix ++ padded manifest_file_id_width id

abbrev pub is_digit : ℕ → Bool
is_digit c = leb b'0' c && leb c b'9'

abbrev pub all_digits : Bytes → Bool
all_digits [] = true
all_digits (c ∷ cs) = is_digit c && all_digits cs

unfoldable pub value_from : ℕ → Bytes → ℕ
value_from n [] = n
value_from n (c ∷ cs) = value_from (n * 10 + (c - b'0')) cs

-- `strconv.ParseUint(text, 10, 64)`
unfoldable pub parse_uint : Bytes → Option ℕ
unfolding value_from
parse_uint text =
    if length text == 0 || not (all_digits text)
    then none
    else if ltb (value_from 0 text) (2 ^ 64)
    then some (value_from 0 text)
    else none

-- The rest of a name behind the front part given, if it has it.
unfoldable pub trim_prefix : Bytes → Bytes → Option Bytes
trim_prefix [] name = some name
trim_prefix (p ∷ ps) [] = none
trim_prefix (p ∷ ps) (c ∷ cs) = if p == c then trim_prefix ps cs else none

abbrev pub has_slash : Bytes → Bool
has_slash [] = false
has_slash (c ∷ cs) = c == b'/' || has_slash cs

-- `filepath.Ext`: from the last dot of the last element on.
unfoldable pub ext : Bytes → Bytes
ext [] = []
ext (c ∷ cs) =
    let rest = ext cs in
    elim rest [ d ∷ ds ↦ d ∷ ds | [] ↦ if c == b'.' && not (has_slash cs) then c ∷ cs else [] ]

-- Behind the first test the name ends in the extension, so the suffix is its last four bytes.
unfoldable pub parse_sst_file_name : Bytes → Option ℕ
unfolding parse_uint ext
parse_sst_file_name name =
    let id_str = take (length name - length sstable_file_ext) name in
    if not (bytes_equal (ext name) sstable_file_ext)
    then none
    else if not (length id_str == sstable_file_id_width)
    then none
    else if not (all_digits id_str)
    then none
    else parse_uint id_str

-- An entry of a directory; of a directory in it only the name matters.
pub record Entry : Type 0 where
  pub name : Bytes
  pub is_dir : Bool
  pub content : Bytes

-- `strings.HasPrefix`, `strings.TrimPrefix` and the parse of what follows.
unfoldable pub manifest_id : Bytes → Option ℕ
unfolding trim_prefix parse_uint
manifest_id name = elim (trim_prefix manifest_file_prefix name) [
  | none ↦ none
  | some id_str ↦ parse_uint id_str
]

-- One round of the loop.
abbrev pub larger_id : ℕ → Option ℕ → ℕ
larger_id max_id none = max_id
larger_id max_id (some id) = if ltb max_id id then id else max_id

unfoldable pub max_manifest_id : ℕ → List Entry → ℕ
unfolding manifest_id
max_manifest_id max_id [] = max_id
max_manifest_id max_id (e ∷ es) = max_manifest_id (larger_id max_id (manifest_id e.name)) es

-- The directory could be read.
unfoldable pub next_available_manifest_id : List Entry → ℕ
unfolding max_manifest_id
next_available_manifest_id entries = (max_manifest_id 0 entries + 1) % 2 ^ 64

abbrev pub file_ids : List FileMetadata → List ℕ
file_ids [] = []
file_ids (fm ∷ files) = fm.file_id ∷ file_ids files

-- Whether the loop of the cleanup goes on to the removal.
unfoldable pub is_orphan : Version → Entry → Bool
unfolding parse_sst_file_name all_files contains
is_orphan version e = if e.is_dir then false else elim (parse_sst_file_name e.name) [
  | none ↦ false
  | some id ↦ not (contains id (file_ids (all_files version)))
]

-- A removal that fails is ignored and leaves the file.
unfoldable pub cleanup_orphan_sstables : (Bytes → Bool) → List Entry → Version → List Entry
unfolding is_orphan
cleanup_orphan_sstables removal_fails [] version = []
cleanup_orphan_sstables removal_fails (e ∷ es) version =
    let rest = cleanup_orphan_sstables removal_fails es version in
    if is_orphan version e && not (removal_fails e.name) then rest else e ∷ rest

unfoldable pub open_file : Bytes → List Entry → Result DbError Bytes
open_file name [] = err missing_file
open_file name (e ∷ es) =
    if bytes_equal e.name name
    then if e.is_dir then err not_a_file else ok e.content
    else open_file name es

abbrev with_reader :
    Reader → List Reader × Result DbError (Unit {0}) → List Reader × Result DbError (Unit {0})
with_reader reader (readers, result) = (reader ∷ readers, result)

-- One file of the loop: what opening it gave, and what the files behind it give.
unfoldable pub open_sst_reader :
    Result DbError Bytes
    → List Reader × Result DbError (Unit {0})
    → List Reader × Result DbError (Unit {0})
unfolding open_reader
open_sst_reader (err e) rest = ([], err e)
open_sst_reader panic rest = ([], panic)
open_sst_reader (ok file) rest = elim (wrap_sst (open_reader file)) [
  | err e ↦ ([], err e)
  | panic ↦ ([], panic)
  | ok reader ↦ with_reader reader rest
]

-- The readers that were opened before an error stay with the caller, which closes them.
unfoldable pub open_sst_readers :
    List Entry → List FileMetadata → List Reader × Result DbError (Unit {0})
unfolding build_sst_file_name open_file open_sst_reader
open_sst_readers entries [] = ([], ok tt)
open_sst_readers entries (fm ∷ files) =
    open_sst_reader (open_file (build_sst_file_name fm.file_id) entries)
      (open_sst_readers entries files)

unfoldable pub open_sst_readers_for_version :
    List Entry → Version → List Reader × Result DbError (Unit {0})
unfolding open_sst_readers all_files
open_sst_readers_for_version entries version = open_sst_readers entries (all_files version)
