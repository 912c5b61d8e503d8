-- ===== src/Engine/Edits.antt =====
-- engine/db.go: the replay of the manifest's version edits. The map of live files is the list of
-- their ids.
pub mod Recovery
mod Tests
use beachdb.Prelude.{
  ℕ, zero, suc, ◌+◌, Bool, true, false, not, List, [], ◌∷◌, Bytes, length, Result, ok, err, panic,
  ◌>>=◌, ◌>>◌, return_if, ◌==◌, if◌then◌else◌,
}
use beachdb.Record.{truncated}
use beachdb.Manifest.Writer.{manifest_record_format}
use beachdb.Stream.{Reader, ReadError, eof, record_error, next, new_reader, valid_offset}
use beachdb.Manifest.Edit.{FileMetadata, DeletedFile, VersionEdit, EditError, decode_version_edit}
use beachdb.Manifest.Version.{Version, new_version, apply, contains}

pub data ReplayError : Type 0 where
  duplicate_file no_next_file_id : ReplayError
  bad_record : ReadError → ReplayError
  bad_edit : EditError → ReplayError

-- The running state of the replay, with the counters of the result.
pub record Replay : Type 0 where
  pub version : Version
  pub next_file_id : ℕ
  pub seqno : ℕ
  pub log_number : ℕ
  pub live_files : List ℕ
  pub saw_next_file_id : Bool

pub record ReplayResult : Type 0 where
  pub replay : Replay
  pub offset : ℕ
  pub tail_trimmed : Bool

unfoldable pub new_replay : Replay
new_replay = record {
  version = new_version;
  next_file_id = 0;
  seqno = 0;
  log_number = 0;
  live_files = [];
  saw_next_file_id = false;
}

unfoldable pub add_live : List FileMetadata → List ℕ → Result ReplayError (List ℕ)
add_live [] live = ok live
add_live (a ∷ as') live =
    return_if (contains a.file_id live) duplicate_file >> add_live as' (a.file_id ∷ live)

-- `delete(liveFiles, id)`
unfoldable pub remove_live : ℕ → List ℕ → List ℕ
remove_live id [] = []
remove_live id (x ∷ xs) = let rest = remove_live id xs in if x == id then rest else x ∷ rest

unfoldable pub remove_all_live : List DeletedFile → List ℕ → List ℕ
unfolding remove_live
remove_all_live [] live = live
remove_all_live (d ∷ ds) live = remove_all_live ds (remove_live d.file_id live)

unfoldable pub apply_edit_to_replay : VersionEdit → Replay → Result ReplayError Replay
unfolding add_live remove_all_live
apply_edit_to_replay edit res = do
  live ← add_live edit.added_files res.live_files
  ok (record {
    version = apply res.version edit;
    next_file_id = if edit.has_next_file_id then edit.next_file_id else res.next_file_id;
    seqno = if edit.has_last_sequence then edit.last_sequence else res.seqno;
    log_number = if edit.has_log_number then edit.log_number else res.log_number;
    live_files = remove_all_live edit.deleted_files live;
    saw_next_file_id = if edit.has_next_file_id then true else res.saw_next_file_id;
  })

-- The end of the stream: it must have had a counter for the next file.
unfoldable pub end_replay : ℕ → Bool → Replay → Result ReplayError ReplayResult
end_replay offset trimmed res = do
  return_if (not res.saw_next_file_id) no_next_file_id
  ok (record { replay = res; offset = offset; tail_trimmed = trimmed })

-- One round of the loop; `loop` is the rest of it.
replay_edit :
    (Replay → Result ReplayError ReplayResult)
    → Result EditError VersionEdit
    → Replay
    → Result ReplayError ReplayResult
unfolding apply_edit_to_replay
replay_edit loop (ok edit) res = apply_edit_to_replay edit res >>= loop
replay_edit loop (err e) res = err (bad_edit e)
replay_edit loop panic res = panic

replay_payload :
    (Reader → Replay → Result ReplayError ReplayResult)
    → Result ReadError Bytes × Reader
    → Replay
    → Result ReplayError ReplayResult
unfolding replay_edit end_replay
replay_payload loop (ok payload, r) res = replay_edit (loop r) (decode_version_edit payload) res
replay_payload loop (err eof, r) res = end_replay (valid_offset r) false res
replay_payload loop (err (record_error truncated), r) res = end_replay (valid_offset r) true res
replay_payload loop (err e, r) res = err (bad_record e)
replay_payload loop (panic, r) res = panic

unfoldable pub replay_edits : ℕ → Reader → Replay → Result ReplayError ReplayResult
unfolding replay_payload
replay_edits zero r res = panic
replay_edits (suc fuel) r res =
    replay_payload (replay_edits fuel) (next manifest_record_format r) res

-- Each record takes bytes of the file, so as many rounds as bytes, and one, are enough.
unfoldable pub replay_manifest_stream : Bytes → Result ReplayError ReplayResult
unfolding replay_edits
replay_manifest_stream contents =
    replay_edits (length contents + 1) (new_reader contents) new_replay
