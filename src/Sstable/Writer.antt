-- ===== src/Sstable/Writer.antt =====
-- internal/sstable/writer.go: building a table file. The file is the bytes written so far; a write
-- or a sync that the operating system refuses is not modelled. Counters wrap at their Go widths.
pub mod Layout
pub mod Flushes
pub mod Adds
pub mod Opens
pub mod Closes
use beachdb.Prelude.{
  ℕ, ◌+◌, ◌%◌, ◌^◌, Ordering, Bool, true, false, ◌&&◌, not, List, [], ◌∷◌, ◌++◌, Bytes, length,
  Result, ok, ◌>>◌, return_if, ltb, ◌==◌, if◌then◌else◌,
}
use beachdb.Keys.{InternalKey, compare_keys}
use beachdb.Sstable.Errors.{SstError, writer_closed, invalid_block_size, out_of_order_key}
use beachdb.Sstable.Block
use beachdb.Sstable.Block.{BlockBuilder, zero_key}
use beachdb.Sstable.Index.{IndexEntry, build_index_block}
use beachdb.Sstable.Footer.{encode_footer}

pub record Writer : Type 0 where
  pub file : Bytes
  pub current_block : BlockBuilder
  pub index_entries : List IndexEntry
  pub offset : ℕ
  pub entry_count : ℕ
  pub data_block_count : ℕ
  pub last_key : InternalKey
  pub has_entries : Bool
  pub closed : Bool
  pub target_block_size : ℕ

unfoldable pub new_writer : ℕ → Result SstError Writer
new_writer block_size = do
  return_if (block_size == 0) invalid_block_size
  ok (record {
    file = [];
    current_block = Block.new_block_builder;
    index_entries = [];
    offset = 0;
    entry_count = 0;
    data_block_count = 0;
    last_key = zero_key;
    has_entries = false;
    closed = false;
    target_block_size = block_size;
  })

unfoldable pub flush_current_block : Writer → Writer
flush_current_block w =
    let block_bytes = Block.finish w.current_block in
    record w {
      file = w.file ++ block_bytes;
      index_entries =
          w.index_entries
          ++ (record {
            last_key = w.current_block.last_key;
            offset = w.offset;
            size = length block_bytes % 2 ^ 32;
          }
              ∷ []);
      offset = (w.offset + length block_bytes) % 2 ^ 64;
      data_block_count = (w.data_block_count + 1) % 2 ^ 32;
      current_block = Block.reset w.current_block;
    }

-- `w.lastKey.Compare(key) >= 0`
abbrev pub is_out_of_order : Ordering → Bool
is_out_of_order Ordering.lt = false
is_out_of_order _ = true

-- A block that the entry would overflow is flushed, unless it is empty.
unfoldable pub make_room : InternalKey → Bytes → Writer → Writer
unfolding flush_current_block
make_room key value w =
    if not (Block.is_empty w.current_block)
      && ltb w.target_block_size (Block.size w.current_block + Block.encoded_entry_size key value)
    then flush_current_block w
    else w

append_entry : InternalKey → Bytes → Writer → Writer
append_entry key value w = record w {
  current_block = Block.add key value w.current_block;
  last_key = key;
  has_entries = true;
  entry_count = (w.entry_count + 1) % 2 ^ 64;
}

unfoldable pub add : InternalKey → Bytes → Writer → Result SstError Writer
unfolding make_room append_entry
add key value w = do
  return_if w.closed writer_closed
  return_if (w.has_entries && is_out_of_order (compare_keys w.last_key key)) out_of_order_key
  ok (append_entry key value (make_room key value w))

write_index : Writer → Writer
write_index w =
    let index_block = build_index_block w.index_entries in
    record w {
      file =
          w.file
          ++ (index_block
              ++ encode_footer (record {
                index_offset = w.offset;
                index_size = length index_block % 2 ^ 32;
                data_block_count = w.data_block_count;
                entry_count = w.entry_count;
              }));
      closed = true;
    }

unfoldable pub close : Writer → Result SstError Writer
unfolding write_index flush_current_block
close w = do
  return_if w.closed writer_closed
  ok (write_index (if w.current_block.has_entries then flush_current_block w else w))
