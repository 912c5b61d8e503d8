-- ===== src/Sstable/Tests.antt =====
-- A concrete table, and the theorems at concrete inputs.
use beachdb.Prelude.{◌≡◌, refl, arith, List, [], ◌∷◌, ◌++◌, Bytes, All, length, ok, ◌>>=◌, ◌+◌}
use beachdb.Coding.{put_uint32, put_uint64}
use beachdb.Checksum.{crc32c}
use beachdb.Keys.{encode, is_valid_kind, compare_keys, compare_bytes}
use beachdb.Sstable.Block.{BlockEntry, encode_entry, IsEncodable}
use beachdb.Sstable.Block.Codec.{
  encode_entries, verify_block_checksum_lem, decode_block_entries-encode_entries,
}
use beachdb.Sstable.Index.{IndexEntry}
use beachdb.Sstable.Footer.{Footer}
use beachdb.Sstable.Iterator.{new_iterator, seek_to_first, seek, collect}
use beachdb.Sstable.Iterator.Seek.{drop_lower}
use beachdb.Sstable.Iterator.Reads.{collect-seek_to_first, collect-seek}
use beachdb.Sstable.Reader.{Reader, read_at, read_block, scan_block, get}
use beachdb.Sstable.Reader.Blocks.{answer, entries_of, Stores}
use beachdb.Sstable.Reader.Lookup.{get-eq-scan}

abbrev newest : BlockEntry
newest = record { key = record { user_key = 1 ∷ []; seqno = 5; kind = 2 }; value = [] }

abbrev oldest : BlockEntry
oldest = record { key = record { user_key = 1 ∷ []; seqno = 3; kind = 1 }; value = 7 ∷ [] }

abbrev entries : List BlockEntry
entries = newest ∷ oldest ∷ []

entries-IsEncodable : All IsEncodable entries
unfolding encode is_valid_kind put_uint64 put_uint32
entries-IsEncodable = (
  record {
    key = record { seqno = omega arith; kind = refl };
    key_size = omega arith;
    value_size = omega arith;
  },
  (
    record {
      key = record { seqno = omega arith; kind = refl };
      key_size = omega arith;
      value_size = omega arith;
    },
    tt,
  ),
)

abbrev index : List IndexEntry
index = record { last_key = oldest.key; offset = 0; size = 41 } ∷ []

abbrev footer : Footer
footer = record { index_offset = 41; index_size = 30; data_block_count = 1; entry_count = 2 }

abbrev block : Bytes
block = encode_entries entries ++ put_uint32 (crc32c (encode_entries entries))

abbrev table : Reader
table = record { file = block; file_size = 41; footer = footer; index_entries = index }

block-length : length block ≡ 41
unfolding encode encode_entry put_uint32 put_uint64
block-length = refl

table-reads : read_block table 0 41 ≡ ok (encode_entries entries)
unfolding read_block read_at encode encode_entry put_uint32 put_uint64
table-reads = verify_block_checksum_lem (encode_entries entries)

table-Stores : Stores table index (entries ∷ [])
table-Stores = (
  record {
    payload = encode_entries entries;
    reads = table-reads;
    decodes = decode_block_entries-encode_entries entries entries-IsEncodable;
    last = refl;
  },
  tt,
)

get-eq-scan_example :
    get table (1 ∷ []) 4 ≡ answer (scan_block (entries_of (entries ∷ [])) (1 ∷ []) 4)
unfolding compare_keys compare_bytes
get-eq-scan_example =
    get-eq-scan (1 ∷ []) table 4 (entries ∷ []) table-Stores ((refl, tt), (tt, tt))
      (omega arith, (omega arith, tt))

collect-seek_to_first_example :
    (seek_to_first (new_iterator table) >>= collect (length (entries_of (entries ∷ [])) + 1))
    ≡ ok (entries_of (entries ∷ []))
unfolding new_iterator
collect-seek_to_first_example =
    collect-seek_to_first table (new_iterator table) (entries ∷ []) refl table-Stores

collect-seek_example :
    (seek (0 ∷ 5 ∷ []) (new_iterator table) >>= collect (length (entries_of (entries ∷ [])) + 1))
    ≡ ok (drop_lower (0 ∷ 5 ∷ []) (entries_of (entries ∷ [])))
unfolding new_iterator compare_keys compare_bytes
collect-seek_example =
    collect-seek table (0 ∷ 5 ∷ []) (new_iterator table) (entries ∷ []) refl table-Stores
      ((refl, tt), (tt, tt)) (omega arith, (omega arith, tt))
