-- ===== src/Engine/Names/Tests.antt =====
-- A directory with a table that the version names, one that it does not name, and two manifests.
use beachdb.Prelude.{
  ◌^◌, ◌<◌, ◌≡◌, refl, arith, false, List, [], ◌∷◌, Bytes, All, none, ok, err, panic, if◌then◌else◌,
}
use beachdb.Record.{bytes_equal}
use beachdb.Keys.{InternalKey}
use beachdb.Manifest.Version.{Version, all_files, contains}
use beachdb.Engine.{missing_file}
use beachdb.Engine.Flush.{write_ss_table}
use beachdb.Engine.Names.{
  Entry, build_sst_file_name, build_manifest_file_name, parse_sst_file_name,
  cleanup_orphan_sstables, file_ids, open_file, open_sst_readers_for_version,
  next_available_manifest_id,
}
use beachdb.Engine.Names.Orphans.{cleanup_orphan_sstables_lem, open_sst_readers_for_version-cleanup}
use beachdb.Engine.Names.Fresh.{next_available_manifest_id_lem}

abbrev key : InternalKey
key = record { user_key = 1 ∷ []; seqno = 5; kind = 1 }

abbrev table : Bytes
table = elim (write_ss_table false 16 (record { key = key; value = 7 ∷ [] } ∷ [])) [
  | ok res ↦ res.reader.file
  | err e ↦ []
  | panic ↦ []
]

abbrev version : Version
version = record {
  files =
      (record { level = 0; file_id = 1; size = 100; smallest_key = key; largest_key = key } ∷ [])
      ∷ [];
}

abbrev file : Bytes → Entry
file name = record { name = name; is_dir = false; content = table }

abbrev directory : List Entry
directory =
    file (build_sst_file_name 1)
    ∷ file (build_sst_file_name 2)
    ∷ file (b'x' ∷ [])
    ∷ file (build_manifest_file_name 1)
    ∷ file (build_manifest_file_name 3)
    ∷ []

named : build_sst_file_name 70 ≡ (
    b'0' ∷ b'0' ∷ b'0' ∷ b'0' ∷ b'0' ∷ b'0' ∷ b'0' ∷ b'0' ∷ b'0' ∷ b'0' ∷ b'0' ∷ b'0' ∷ b'0' ∷ b'0'
    ∷ b'0' ∷ b'0' ∷ b'0' ∷ b'0' ∷ b'7' ∷ b'0' ∷ b'.' ∷ b's' ∷ b's' ∷ b't' ∷ [])
unfolding build_sst_file_name
named = refl

not_canonical : parse_sst_file_name (b'7' ∷ b'0' ∷ b'.' ∷ b's' ∷ b's' ∷ b't' ∷ []) ≡ none
unfolding parse_sst_file_name bytes_equal
not_canonical = refl

next_number : next_available_manifest_id directory ≡ 4
unfolding next_available_manifest_id build_sst_file_name build_manifest_file_name
next_number = refl

cleaned :
    cleanup_orphan_sstables (λ _. false) directory version
    ≡ file (build_sst_file_name 1)
      ∷ file (b'x' ∷ [])
      ∷ file (build_manifest_file_name 1)
      ∷ file (build_manifest_file_name 3)
      ∷ []
unfolding cleanup_orphan_sstables build_sst_file_name build_manifest_file_name bytes_equal
cleaned = refl

cleanup_orphan_sstables_lem_example :
    open_file (build_sst_file_name 2) (cleanup_orphan_sstables (λ _. false) directory version) ≡ (
      if contains 2 (file_ids (all_files version))
      then open_file (build_sst_file_name 2) directory
      else err missing_file)
cleanup_orphan_sstables_lem_example =
    cleanup_orphan_sstables_lem version directory 2 (omega arith)
      (refl, (refl, (refl, (refl, (refl, tt)))))

version-small : All (λ fm. fm.file_id < 2 ^ 64) (all_files version)
unfolding all_files
version-small = (omega arith, tt)

open_sst_readers_for_version-cleanup_example :
    open_sst_readers_for_version (cleanup_orphan_sstables (λ _. false) directory version) version
    ≡ open_sst_readers_for_version directory version
open_sst_readers_for_version-cleanup_example =
    open_sst_readers_for_version-cleanup (λ _. false) directory version version-small

next_available_manifest_id_lem_example :
    open_file (build_manifest_file_name (next_available_manifest_id directory)) directory
    ≡ err missing_file
next_available_manifest_id_lem_example =
    next_available_manifest_id_lem directory (rw next_number (omega arith))
