-- ===== src/Manifest/Tests.antt =====
-- A concrete edit and version, and the theorems at concrete inputs.
use mathlib.Core.List.{Perm}
use beachdb.Prelude.{ℕ, ◌≡◌, ◌<◌, ◌^◌, refl, arith, true, false, [], ◌∷◌, ◌++◌, ok, Safe}
use beachdb.Coding.{put_uint32, put_uint64}
use beachdb.Keys.{InternalKey, encode, is_valid_kind}
use beachdb.Manifest.Edit.{
  FileMetadata, VersionEdit, encode_edit, decode_version_edit, IsEncodable, IsEncodableFile,
}
use beachdb.Manifest.Edit.RoundTrip.{decode_version_edit-encode_edit}
use beachdb.Manifest.Edit.Total.{IsWellFormed, decode_version_edit-Safe}
use beachdb.Manifest.Version.{Version, new_version, apply, files_at}
use beachdb.Manifest.Version.Files.{added_at}
use beachdb.Manifest.Version.Survivors.{survivors}
use beachdb.Manifest.Version.Applied.{apply-perm, LevelsAreSorted, apply-LevelsAreSorted}

abbrev low : InternalKey
low = record { user_key = 1 ∷ []; seqno = 3; kind = 1 }

abbrev high : InternalKey
high = record { user_key = 9 ∷ []; seqno = 2; kind = 2 }

abbrev file : ℕ → FileMetadata
file id = record { level = 1; file_id = id; size = 100; smallest_key = low; largest_key = high }

abbrev edit : VersionEdit
edit = record {
  added_files = file 7 ∷ file 8 ∷ [];
  deleted_files = record { level = 0; file_id = 4 } ∷ [];
  has_next_file_id = true;
  next_file_id = 9;
  has_last_sequence = false;
  last_sequence = 0;
  has_log_number = true;
  log_number = 2;
}

abbrev version : Version
version = record { files = (file 4 ∷ file 5 ∷ []) ∷ [] }

file-IsEncodable : (id : ℕ) → id < 2 ^ 64 → IsEncodableFile (file id)
unfolding encode is_valid_kind put_uint32 put_uint64
file-IsEncodable id small = record {
  level = omega arith;
  file_id = small;
  size = omega arith;
  smallest_key = record { seqno = omega arith; kind = refl };
  smallest_size = omega arith;
  largest_key = record { seqno = omega arith; kind = refl };
  largest_size = omega arith;
}

edit-IsEncodable : IsEncodable edit
edit-IsEncodable = record {
  next_file_id = omega arith;
  last_sequence = refl;
  log_number = omega arith;
  deleted_files = (record { level = omega arith; file_id = omega arith }, tt);
  added_files = (file-IsEncodable 7 (omega arith), (file-IsEncodable 8 (omega arith), tt));
}

decode_version_edit-encode_edit_example : decode_version_edit (encode_edit edit) ≡ ok edit
decode_version_edit-encode_edit_example = decode_version_edit-encode_edit edit edit-IsEncodable

decode_version_edit-Safe_example : Safe IsWellFormed (decode_version_edit (3 ∷ 0 ∷ 1 ∷ []))
decode_version_edit-Safe_example = decode_version_edit-Safe (3 ∷ 0 ∷ 1 ∷ [])

apply-perm_example :
    Perm
      (files_at (apply version edit) 1)
      (survivors 1 edit.deleted_files (files_at version 1) ++ added_at 1 edit.added_files)
apply-perm_example = apply-perm version edit 1

new_version-LevelsAreSorted : LevelsAreSorted new_version
unfolding new_version files_at
new_version-LevelsAreSorted m = tt

apply-LevelsAreSorted_example : LevelsAreSorted (apply new_version edit)
apply-LevelsAreSorted_example = apply-LevelsAreSorted new_version edit new_version-LevelsAreSorted
