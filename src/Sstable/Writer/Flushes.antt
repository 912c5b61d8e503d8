-- ===== src/Sstable/Writer/Flushes.antt =====
-- What the writer's state holds: the blocks that are written, and the entries of the current block,
-- and what flushing that block makes of it.
use beachdb.Prelude.{
  ℕ, ◌+◌, ◌%◌, ◌^◌, ◌≡◌, ◌≤◌, ◌<◌, refl, sym, ◌∙◌, ap, arith, Bool, true, false, List, [], ◌∷◌,
  ◌++◌, length, length-append, All, All-append, append-nil,
}
use beachdb.Keys.{InternalKey}
use beachdb.Sstable.Block
use beachdb.Sstable.Block.{BlockEntry, BlockBuilder, encode_entry, zero_key}
use beachdb.Sstable.Block.Codec.{encode_entries}
use beachdb.Sstable.Index.{IndexEntry}
use beachdb.Sstable.Reader.Blocks.{entries_of}
use beachdb.Sstable.Writer.{Writer, flush_current_block}
use beachdb.Sstable.Writer.Layout

abbrev pub is_some : List BlockEntry → Bool
is_some [] = false
is_some (e ∷ es) = true

-- The block builder after these entries.
abbrev pub builder_of : List BlockEntry → ℕ → InternalKey → BlockBuilder
builder_of es count first = record {
  buf = encode_entries es;
  entry_count = count;
  first_key = first;
  last_key = Layout.last_key_of es;
  has_entries = is_some es;
}

-- The writer has written the blocks and holds the entries of the current one.
pub record Holds (w : Writer) (blocks : List (List BlockEntry)) (current : List BlockEntry)
    : Type 0 where
  pub file : w.file ≡ Layout.bytes_of blocks
  pub index : w.index_entries ≡ Layout.index_of 0 blocks
  pub offset : w.offset ≡ length (Layout.bytes_of blocks)
  pub count : ℕ
  pub first : InternalKey
  pub builder : w.current_block ≡ builder_of current count first
  pub full : All Layout.IsSome blocks
  pub data_block_count : w.data_block_count ≡ length blocks
  pub entry_count : w.entry_count ≡ length (entries_of blocks ++ current)
  pub is_open : w.closed ≡ false

pub entries_of-snoc :
    (bs : List (List BlockEntry)) (b : List BlockEntry)
    → entries_of (bs ++ (b ∷ [])) ≡ entries_of bs ++ b
entries_of-snoc bs b =
    Layout.entries_of-append bs (b ∷ []) ∙ ap (λ t. entries_of bs ++ t) (append-nil b)

pub length-snoc : {A : Type 0} (bs : List A) (b : A) → length (bs ++ (b ∷ [])) ≡ length bs + 1
length-snoc bs b = omega (arith, length-append bs (b ∷ []))

some_length : (b : List BlockEntry) → Layout.IsSome b → 1 ≤ length b
some_length [] s = absurd s
some_length (e ∷ b) s = omega arith

module _ (w : Writer) (blocks : List (List BlockEntry)) (current : List BlockEntry)
    (h : Holds w blocks current) (s : Layout.IsSome current)
    (small : Layout.cost (entries_of blocks ++ current) < 2 ^ 32) where
  finished : Block.finish w.current_block ≡ Layout.block_bytes current
  finished = ap Block.finish h.builder ∙ unfold Block.finish in refl

  parts : Layout.cost (entries_of blocks) + Layout.cost current < 2 ^ 32
  parts = omega (arith, small, Layout.cost-append (entries_of blocks) current)

  block_small : length (Layout.block_bytes current) < 2 ^ 32
  block_small = omega (arith, parts, Layout.block_bytes-cost current s)

  file_flushed : w.file ++ Block.finish w.current_block ≡ Layout.bytes_of (blocks ++ (current ∷ []))
  file_flushed =
      rw (h.file, finished)
        (ap (λ t. Layout.bytes_of blocks ++ t) (sym (append-nil (Layout.block_bytes current)))
          ∙ sym (Layout.bytes_of-append blocks (current ∷ [])))

  index_flushed :
      w.index_entries
        ++ (record {
          last_key = w.current_block.last_key;
          offset = w.offset;
          size = length (Block.finish w.current_block) % 2 ^ 32;
        }
            ∷ [])
      ≡ Layout.index_of 0 (blocks ++ (current ∷ []))
  index_flushed =
      let last : w.current_block.last_key ≡ Layout.last_key_of current =
        ap (λ (b : BlockBuilder). b.last_key) h.builder in
      let size : length (Block.finish w.current_block) % 2 ^ 32
          ≡ length (Layout.block_bytes current) =
        omega (arith, ap (length {A = ℕ}) finished, block_small) in
      let from : ℕ → IndexEntry = λ n. Layout.index_entry_of n current in
      rw (size, h.index, last, h.offset)
        (ap (λ (n : ℕ). Layout.index_of 0 blocks ++ (from n ∷ [])) (omega arith)
          ∙ sym (Layout.index_of-append 0 blocks current))

  offset_flushed :
      (w.offset + length (Block.finish w.current_block)) % 2 ^ 64
      ≡ length (Layout.bytes_of (blocks ++ (current ∷ [])))
  offset_flushed =
      rw (h.offset, finished)
        (omega (
          arith,
          parts,
          Layout.bytes_of-cost blocks h.full,
          block_small,
          ap (length {A = ℕ}) (Layout.bytes_of-append blocks (current ∷ [])),
          length-append (Layout.bytes_of blocks) (Layout.bytes_of (current ∷ [])),
          length-append (Layout.block_bytes current) [],
        ))

  pub flush-Holds : Holds (flush_current_block w) (blocks ++ (current ∷ [])) []
  unfolding flush_current_block
  flush-Holds = record {
    file = file_flushed;
    index = index_flushed;
    offset = offset_flushed;
    count = 0;
    first = zero_key;
    builder = unfold Block.reset in refl;
    full = All-append Layout.IsSome blocks (current ∷ []) h.full (s, tt);
    data_block_count = omega (
      arith,
      h.data_block_count,
      length-snoc blocks current,
      Layout.length-blocks blocks h.full,
      Layout.length-cost (entries_of blocks),
      Layout.length-cost current,
      some_length current s,
      parts,
    );
    entry_count =
        h.entry_count
        ∙ ap (length {A = BlockEntry}) (
            sym (
              append-nil (entries_of (blocks ++ (current ∷ []))) ∙ entries_of-snoc blocks current));
    is_open = h.is_open;
  }
