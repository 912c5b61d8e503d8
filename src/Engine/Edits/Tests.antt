-- ===== src/Engine/Edits/Tests.antt =====
-- A concrete manifest, and the theorem at it.
use beachdb.Prelude.{refl, arith, true, false, [], ◌∷◌, Bytes, take, drop, take-append-drop}
use beachdb.Coding.{put_uint64, put_uint32}
use beachdb.Manifest.Edit.{
  VersionEdit, encode_edit, write_counter_tag, write_deleted_files, write_added_files,
}
use beachdb.Wal.Cut.{stream_of}
use beachdb.Manifest.Writer.{manifest_record_format}
use beachdb.Engine.Edits.Recovery.{
  IsStorable, payloads, ReplaysEdits, replay_manifest_stream-ReplaysEdits,
}

abbrev counters : VersionEdit
counters = record {
  added_files = [];
  deleted_files = [];
  has_next_file_id = true;
  next_file_id = 1;
  has_last_sequence = true;
  last_sequence = 0;
  has_log_number = false;
  log_number = 0;
}

counters-IsStorable : IsStorable counters
unfolding encode_edit write_counter_tag put_uint64 put_uint32 write_deleted_files write_added_files
counters-IsStorable = record {
  encodable = record {
    next_file_id = omega arith;
    last_sequence = omega arith;
    log_number = refl;
    deleted_files = tt;
    added_files = tt;
  };
  fits = omega arith;
}

abbrev log : Bytes
log = stream_of manifest_record_format (payloads (counters ∷ counters ∷ []))

replay_manifest_stream-ReplaysEdits_example : ReplaysEdits (counters ∷ counters ∷ []) (take 50 log)
replay_manifest_stream-ReplaysEdits_example =
    replay_manifest_stream-ReplaysEdits (counters ∷ counters ∷ []) (take 50 log) (drop 50 log)
      (counters-IsStorable, (counters-IsStorable, tt)) (take-append-drop 50 log)
