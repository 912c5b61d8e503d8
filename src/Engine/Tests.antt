-- ===== src/Engine/Tests.antt =====
-- A concrete database on a memtable that is a list, and the theorems at concrete inputs.

use beachdb.Prelude.{
  ◌≤◌, ◌≡◌, refl, arith, true, false, List, [], ◌∷◌, ◌++◌, Bytes, none, some, length, take, drop,
  take-append-drop, append-nil, ok,
}
use beachdb.Coding.{put_uint32}
use beachdb.Batch.{
  Operation, Batch, op_put, op_delete, op_type_byte, is_empty, count, encode_operations, encode_all,
  encode_operation, encode_value,
}
use beachdb.Wal.{Writer, wal_record_format}
use beachdb.Wal.Contents.{contents, IsSynced}
use beachdb.Wal.Cut.{stream_of}
use beachdb.Stream.Torn.{record_of}
use beachdb.Memtable.Listed.{listed, listed-IsMemtable}
use beachdb.Engine.{Db, returned, write, replay_wal, get_key, apply_operations}
use beachdb.Engine.Recovery.{Logged, apply_batches, Recovers, replay_wal-Recovers}
use beachdb.Engine.Durable.{Accepts, write-logs, write-durable}
use beachdb.Engine.Reads.Refines.{
  IsConsistent, steps, apply_operations-IsConsistent, get_key-apply_operations,
}
use beachdb.Engine.Written.{get_key-write}

abbrev fresh : Db listed
fresh = record {
  sync_on_write = true;
  memtable_flush_size = 1;
  closed = false;
  seqno = 0;
  mem = [];
  imm_mem = none;
  ssts = [];
  wal = record { is_open = true; file = []; buf = []; synced = 0 };
  flush_err = none;
  next_sst_id = 1;
  manifest = record { is_open = true; file = [] };
  version = record { files = [] };
}

abbrev operations : List Operation
operations =
    record { op_type = op_put; key = 1 ∷ []; value = 7 ∷ [] }
    ∷ record { op_type = op_delete; key = 2 ∷ []; value = [] }
    ∷ []

abbrev batch : Batch
batch = record { ops = operations }

abbrev payload : Bytes
payload =
    1 ∷ 0 ∷ 0 ∷ 0 ∷ 0 ∷ 0 ∷ 0 ∷ 2 ∷ 1 ∷ 0 ∷ 0 ∷ 0 ∷ 1 ∷ 1 ∷ 0 ∷ 0 ∷ 0 ∷ 1 ∷ 7 ∷ 2 ∷ 0 ∷ 0 ∷ 0 ∷ 1
    ∷ 2 ∷ []

encode_batch : encode_operations operations ≡ ok payload
unfolding encode_operations encode_all encode_operation encode_value op_type_byte put_uint32
encode_batch = refl

operations-Logged : Logged operations payload
operations-Logged = record {
  encodes = encode_batch;
  few = omega arith;
  fields = (
    record { key_fits = omega arith; value_fits = omega arith },
    (record { key_fits = omega arith; value_fits = refl }, tt),
  );
  fits = omega arith;
}

fresh-IsConsistent : IsConsistent listed listed-IsMemtable fresh
fresh-IsConsistent = record {
  mem = record { valid = tt; sorted = tt; bounded = tt };
  imm_mem = tt;
  tables = tt;
}

fresh-Accepts : Accepts listed batch payload fresh
unfolding is_empty count
fresh-Accepts = record {
  is_open = refl;
  no_error = refl;
  log_is_open = refl;
  some_operation = refl;
  logged = operations-Logged;
}

abbrev log : Bytes
log = stream_of wal_record_format (payload ∷ [])

replay_wal-Recovers_example : Recovers listed fresh (operations ∷ []) (payload ∷ []) (take 20 log)
replay_wal-Recovers_example =
    replay_wal-Recovers listed fresh (operations ∷ []) (payload ∷ []) (take 20 log) (drop 20 log)
      (operations-Logged, tt) (take-append-drop 20 log)

write-logs_example :
    IsSynced (write listed false false [] (some batch) fresh).1.wal
    × (contents (write listed false false [] (some batch) fresh).1.wal
        ≡ contents fresh.wal ++ record_of wal_record_format payload)
write-logs_example = write-logs listed batch payload fresh fresh-Accepts refl

abbrev written : Writer
written = (write listed false false [] (some batch) fresh).1.wal

written-synced : written.synced ≤ length written.file
written-synced = omega (arith, write-logs_synced)
  where
    write-logs_synced : written.synced ≡ length written.file
    write-logs_synced = (write-logs listed batch payload fresh fresh-Accepts refl).0.1

write-durable_example :
    replay_wal listed (some written.file) fresh
    ≡ (ok none, apply_batches listed ([] ++ (operations ∷ [])) fresh)
write-durable_example =
    write-durable listed [] [] batch payload written.file [] fresh fresh tt refl fresh-Accepts refl
      (append-nil written.file) written-synced

apply_operations-IsConsistent_example :
    IsConsistent listed listed-IsMemtable (apply_operations listed operations fresh)
apply_operations-IsConsistent_example =
    apply_operations-IsConsistent listed listed-IsMemtable operations fresh (omega arith)
      fresh-IsConsistent

get_key-apply_operations_example :
    get_key listed false (1 ∷ []) (apply_operations listed operations fresh)
    ≡ steps operations (1 ∷ []) (get_key listed false (1 ∷ []) fresh)
get_key-apply_operations_example =
    get_key-apply_operations listed listed-IsMemtable operations fresh (1 ∷ []) refl (omega arith)
      fresh-IsConsistent

get_key-write_example :
    ((write listed false false [] (some batch) fresh).0 ≡ returned (ok tt))
    × (get_key listed false (2 ∷ []) (write listed false false [] (some batch) fresh).1
        ≡ steps operations (2 ∷ []) (get_key listed false (2 ∷ []) fresh))
get_key-write_example =
    get_key-write listed listed-IsMemtable batch payload fresh (2 ∷ []) fresh-Accepts refl refl
      (omega arith) fresh-IsConsistent
