-- ===== src/Engine/Publish/Tests.antt =====
-- A concrete flush, and the theorems at it.
use beachdb.Prelude.{◌≡◌, refl, arith, true, false, [], ◌∷◌, ◌++◌, All, some, none, ok}
use beachdb.Coding.{put_uint64, put_uint32}
use beachdb.Checksum.{crc32c}
use beachdb.Keys.{encode, is_valid_kind}
use beachdb.Manifest.Edit.{
  VersionEdit, encode_edit, write_counter_tag, write_deleted_files, write_added_files,
  write_added_file, write_length_prefixed_bytes,
}
use beachdb.Manifest.Version.{apply}
use beachdb.Manifest.Writer.{manifest_record_format}
use beachdb.Wal.Cut.{stream_of}
use beachdb.Sstable.Block.{BlockEntry, encode_entry, IsEncodable}
use beachdb.Sstable.Block.Codec.{
  encode_entries, verify_block_checksum_lem, decode_block_entries-encode_entries,
}
use beachdb.Sstable.Reader.{Reader, read_at, read_block}
use beachdb.Memtable.Listed.{listed, listed-IsMemtable}
use beachdb.Engine.{Db, get_key}
use beachdb.Engine.Edits.{
  ReplayResult, new_replay, replay_manifest_stream, apply_edit_to_replay, add_live, remove_all_live,
}
use beachdb.Engine.Edits.Recovery.{IsStorable, payloads}
use beachdb.Engine.Publish.{SstWriteResult, flush_edit, publish_flushed_sst}
use beachdb.Engine.Publish.Reads.{Holds, get_key-publish_flushed_sst}
use beachdb.Engine.Publish.Recorded.{
  IsRecorded, publish_flushed_sst-IsRecorded, replay_manifest_stream-IsRecorded,
}

abbrev entry : BlockEntry
entry = record { key = record { user_key = 1 ∷ []; seqno = 1; kind = 1 }; value = 7 ∷ [] }

entry-IsEncodable : All IsEncodable (entry ∷ [])
unfolding encode is_valid_kind put_uint64 put_uint32
entry-IsEncodable = (
  record {
    key = record { seqno = omega arith; kind = refl };
    key_size = omega arith;
    value_size = omega arith;
  },
  tt,
)

abbrev table : Reader
table = record {
  file = encode_entries (entry ∷ []) ++ put_uint32 (crc32c (encode_entries (entry ∷ [])));
  file_size = 23;
  footer = record { index_offset = 23; index_size = 30; data_block_count = 1; entry_count = 1 };
  index_entries = record { last_key = entry.key; offset = 0; size = 23 } ∷ [];
}

table-reads : read_block table 0 23 ≡ ok (encode_entries (entry ∷ []))
unfolding read_block read_at encode encode_entry put_uint32 put_uint64
table-reads = verify_block_checksum_lem (encode_entries (entry ∷ []))

table-Holds : Holds listed listed-IsMemtable table (entry ∷ [])
table-Holds = record {
  blocks = (entry ∷ []) ∷ [];
  stored = (
    record {
      payload = encode_entries (entry ∷ []);
      reads = table-reads;
      decodes = decode_block_entries-encode_entries (entry ∷ []) entry-IsEncodable;
      last = refl;
    },
    tt,
  );
  ascending = (tt, tt);
  small = (omega arith, tt);
  same = refl;
  valid = tt;
  sorted = (tt, tt);
}

abbrev flushed : SstWriteResult
flushed = record { reader = table; smallest = entry.key; largest = entry.key; size = 23 }

abbrev first_edit : VersionEdit
first_edit = record {
  added_files = [];
  deleted_files = [];
  has_next_file_id = true;
  next_file_id = 1;
  has_last_sequence = true;
  last_sequence = 0;
  has_log_number = true;
  log_number = 0;
}

abbrev database : Db listed
database = record {
  sync_on_write = true;
  memtable_flush_size = 1;
  closed = false;
  seqno = 1;
  mem = [];
  imm_mem = some (entry ∷ []);
  ssts = [];
  wal = record { is_open = true; file = []; buf = []; synced = 0 };
  flush_err = none;
  next_sst_id = 1;
  manifest = record {
    is_open = true;
    file = stream_of manifest_record_format (payloads (first_edit ∷ []));
  };
  version = apply new_replay.version first_edit;
}

first_edit-IsStorable : IsStorable first_edit
unfolding encode_edit write_counter_tag put_uint64 put_uint32 write_deleted_files write_added_files
first_edit-IsStorable = record {
  encodable = record {
    next_file_id = omega arith;
    last_sequence = omega arith;
    log_number = omega arith;
    deleted_files = tt;
    added_files = tt;
  };
  fits = omega arith;
}

flushed-IsStorable : IsStorable (flush_edit listed flushed database)
unfolding flush_edit encode_edit write_counter_tag put_uint64 put_uint32 write_deleted_files
    write_added_files write_added_file write_length_prefixed_bytes encode is_valid_kind
flushed-IsStorable = record {
  encodable = record {
    next_file_id = omega arith;
    last_sequence = omega arith;
    log_number = refl;
    deleted_files = tt;
    added_files = (
      record {
        level = omega arith;
        file_id = omega arith;
        size = omega arith;
        smallest_key = record { seqno = omega arith; kind = refl };
        smallest_size = omega arith;
        largest_key = record { seqno = omega arith; kind = refl };
        largest_size = omega arith;
      },
      tt,
    );
  };
  fits = omega arith;
}

database-IsRecorded : IsRecorded listed database
unfolding new_replay apply_edit_to_replay add_live remove_all_live
database-IsRecorded = record {
  edits = first_edit ∷ [];
  replay = record {
    version = apply new_replay.version first_edit;
    next_file_id = 1;
    seqno = 0;
    log_number = 0;
    live_files = [];
    saw_next_file_id = true;
  };
  storable = (first_edit-IsStorable, tt);
  is_open = refl;
  file = refl;
  applies = refl;
  version = refl;
  next_file_id = refl;
  saw_next_file_id = refl;
  live = tt;
}

get_key-publish_flushed_sst_example :
    get_key listed false (1 ∷ []) (publish_flushed_sst listed false flushed database).1
    ≡ get_key listed false (1 ∷ []) database
get_key-publish_flushed_sst_example =
    get_key-publish_flushed_sst listed listed-IsMemtable false database flushed (entry ∷ [])
      (1 ∷ []) refl refl table-Holds

publish_flushed_sst-IsRecorded_example :
    ((publish_flushed_sst listed false flushed database).0 ≡ ok tt)
    × IsRecorded listed (publish_flushed_sst listed false flushed database).1
publish_flushed_sst-IsRecorded_example =
    publish_flushed_sst-IsRecorded listed flushed database database-IsRecorded flushed-IsStorable
      (omega arith)

replay_manifest_stream-IsRecorded_example :
    (r : ReplayResult) × ((replay_manifest_stream database.manifest.file ≡ ok r)
      × ((r.replay.version ≡ database.version) × (r.replay.next_file_id ≡ database.next_sst_id)))
replay_manifest_stream-IsRecorded_example =
    replay_manifest_stream-IsRecorded listed database database-IsRecorded
