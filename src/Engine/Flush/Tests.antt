-- ===== src/Engine/Flush/Tests.antt =====
-- A concrete flush of two entries, and the theorems at it.
use beachdb.Prelude.{
  ◌+◌, ◌*◌, ◌^◌, ◌<◌, ◌≡◌, ◌≢◌, refl, arith, true, false, Bool, List, [], ◌∷◌, All, some, none, ok,
  panic, length, ◌>>=◌,
}
use beachdb.Coding.{put_uint64, put_uint32}
use beachdb.Keys.{encode, is_valid_kind, compare_keys, compare_bytes}
use beachdb.Sstable.Block.{BlockEntry, encode_entry, IsEncodable}
use beachdb.Sstable.Reader.{scan_block, get}
use beachdb.Sstable.Reader.Scan.{IsAscending}
use beachdb.Sstable.Reader.Blocks.{answer}
use beachdb.Sstable.Iterator.{new_iterator, seek_to_first, collect}
use beachdb.Sstable.Writer.Layout
use beachdb.Memtable.Listed.{listed, listed-IsMemtable}
use beachdb.Engine.{Db, get_key}
use beachdb.Engine.Publish.{SstWriteResult}
use beachdb.Engine.Flush.{Job, write_ss_table, flush_frozen, flush_round, Monitor}
use beachdb.Engine.Flush.Writes.{first_key_of, write_ss_table-reads}
use beachdb.Engine.Flush.Reads.{IsFlushable, get_key-flush_frozen}
use beachdb.Engine.Flush.Waits.{Ends, flush_frozen-Ends}
use beachdb.Engine.Flush.Turns.{round_of, AreAnswered, turns, flush_round-answers}

abbrev newer : BlockEntry
newer = record { key = record { user_key = 1 ∷ []; seqno = 5; kind = 1 }; value = 7 ∷ [] }

abbrev older : BlockEntry
older = record { key = record { user_key = 1 ∷ []; seqno = 3; kind = 2 }; value = [] }

abbrev entries : List BlockEntry
entries = newer ∷ older ∷ []

entries-IsAscending : IsAscending entries
unfolding compare_keys compare_bytes
entries-IsAscending = ((refl, tt), (tt, tt))

entries-IsEncodable : All IsEncodable entries
unfolding encode is_valid_kind put_uint64 put_uint32
entries-IsEncodable = (
  record {
    key = record { seqno = omega arith; kind = refl };
    key_size = omega arith;
    value_size = omega arith;
  },
  (
    record {
      key = record { seqno = omega arith; kind = refl };
      key_size = omega arith;
      value_size = omega arith;
    },
    tt,
  ),
)

entries_small : 2 * Layout.cost entries + 8 < 2 ^ 32
unfolding encode encode_entry put_uint64 put_uint32
entries_small = omega arith

entries-IsFlushable : IsFlushable entries
entries-IsFlushable = record {
  some_entry = tt;
  ascending = entries-IsAscending;
  fits = entries-IsEncodable;
  small = entries_small;
}

abbrev database : Db listed
database = record {
  sync_on_write = true;
  memtable_flush_size = 1;
  closed = false;
  seqno = 5;
  mem = [];
  imm_mem = some entries;
  ssts = [];
  wal = record { is_open = true; file = []; buf = []; synced = 0 };
  flush_err = none;
  next_sst_id = 1;
  manifest = record { is_open = true; file = [] };
  version = record { files = [] };
}

abbrev job : Bool → Job listed
job fault = record {
  write_fault = fault;
  publish_fault = false;
  block_size = 16;
  meanwhile = λ db. record db { seqno = 9 };
}

write_ss_table-reads_example :
    (res : SstWriteResult) × (write_ss_table false 16 entries ≡ ok res)
    × (get res.reader (1 ∷ []) 4 ≡ answer (scan_block entries (1 ∷ []) 4))
    × ((seek_to_first (new_iterator res.reader) >>= collect (length entries + 1)) ≡ ok entries)
    × (res.smallest ≡ first_key_of entries)
    × (res.largest ≡ Layout.last_key_of entries)
    × (res.size ≡ length res.reader.file)
write_ss_table-reads_example =
    write_ss_table-reads 16 entries tt entries-IsAscending entries-IsEncodable entries_small
      (1 ∷ []) 4

get_key-flush_frozen_example :
    get_key listed false (1 ∷ []) (flush_frozen listed (job false) entries database).1
    ≡ get_key listed false (1 ∷ []) (record database { seqno = 9 })
get_key-flush_frozen_example =
    get_key-flush_frozen listed listed-IsMemtable (job false) database entries (1 ∷ []) refl refl tt
      entries-IsFlushable

flush_frozen-Ends_example :
    Ends listed (record database { seqno = 9 }) (flush_frozen listed (job true) entries database)
flush_frozen-Ends_example = flush_frozen-Ends listed (job true) entries database

flush_returns : (flush_frozen listed (job true) entries database).0 ≢ panic
unfolding flush_frozen
flush_returns e = cc e

-- The writers 7 and 8 sleep, and 9 falls asleep during the flush, which fails.
abbrev monitor : Monitor listed
monitor = record { db = database; asleep = 7 ∷ 8 ∷ []; ready = [] }

flush_round-answers_example :
    let round = round_of listed (job true) (9 ∷ []) entries monitor in
    AreAnswered listed round.0 round.1
      (turns listed (flush_round listed (job true) (9 ∷ []) monitor).1)
flush_round-answers_example =
    flush_round-answers listed (job true) (9 ∷ []) entries monitor refl refl refl refl flush_returns
