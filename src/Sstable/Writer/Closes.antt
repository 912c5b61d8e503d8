-- ===== src/Sstable/Writer/Closes.antt =====
-- Close: the last block, the index and the footer behind the blocks.
use beachdb.Prelude.{
  ℕ, ◌+◌, ◌*◌, ◌%◌, ◌^◌, ◌≡◌, ◌<◌, refl, sym, ◌∙◌, ap, subst, arith, true, false, List, [], ◌∷◌,
  ◌++◌, length, All, append-nil, ok, if◌then◌else◌,
}
use beachdb.Sstable.Block.{BlockEntry, BlockBuilder}
use beachdb.Sstable.Index.{build_index_block}
use beachdb.Sstable.Reader.Blocks.{entries_of}
use beachdb.Sstable.Writer.{Writer, close, write_index, flush_current_block}
use beachdb.Sstable.Writer.Layout
use beachdb.Sstable.Writer.Flushes.{Holds, flush-Holds, entries_of-snoc}
use beachdb.Sstable.Writer.Opens.{table_bytes}

write_index-table :
    (w : Writer) (bs : List (List BlockEntry))
    → Holds w bs []
    → 2 * Layout.cost (entries_of bs) + 8 < 2 ^ 32
    → (write_index w).file ≡ table_bytes bs
unfolding write_index
write_index-table w bs h small =
    let block = build_index_block (Layout.index_of 0 bs) in
    let block_is : build_index_block w.index_entries ≡ block = ap build_index_block h.index in
    let size : length (build_index_block w.index_entries) % 2 ^ 32 ≡ length block =
      omega
        (arith, ap (length {A = ℕ}) block_is, Layout.length-build_index_block 0 bs h.full, small) in
    let count : w.entry_count ≡ length (entries_of bs) =
      h.entry_count ∙ ap (length {A = BlockEntry}) (append-nil (entries_of bs)) in
    rw (size, h.file, block_is, h.offset, h.data_block_count, count) refl

close_if :
    (w : Writer)
    → w.closed ≡ false
    → close w ≡ ok (write_index (if w.current_block.has_entries then flush_current_block w else w))
unfolding close
close_if w opened = rw opened refl

-- A writer that holds entries closes, and the file is the table of blocks with these entries.
pub close-table :
    (w : Writer) (blocks : List (List BlockEntry)) (current : List BlockEntry)
    → Holds w blocks current
    → 2 * Layout.cost (entries_of blocks ++ current) + 8 < 2 ^ 32
    → (w' : Writer) × (bs : List (List BlockEntry)) × (close w ≡ ok w')
      × (w'.file ≡ table_bytes bs)
      × All Layout.IsSome bs
      × (entries_of bs ≡ entries_of blocks ++ current)
close-table w blocks [] h small =
    let empty : w.current_block.has_entries ≡ false =
      ap (λ (b : BlockBuilder). b.has_entries) h.builder in
    let same : entries_of blocks ++ [] ≡ entries_of blocks = append-nil (entries_of blocks) in
    (
      write_index w,
      blocks,
      close_if w h.is_open
          ∙ ap (λ b. ok (write_index (if b then flush_current_block w else w))) empty,
      write_index-table w blocks h (subst (λ es. 2 * Layout.cost es + 8 < 2 ^ 32) same small),
      h.full,
      sym same,
    )
close-table w blocks (e ∷ es) h small =
    let bs = blocks ++ ((e ∷ es) ∷ []) in
    let some : w.current_block.has_entries ≡ true =
      ap (λ (b : BlockBuilder). b.has_entries) h.builder in
    let same : entries_of bs ≡ entries_of blocks ++ (e ∷ es) = entries_of-snoc blocks (e ∷ es) in
    let h' = flush-Holds w blocks (e ∷ es) h tt (omega (arith, small)) in
    (
      write_index (flush_current_block w),
      bs,
      close_if w h.is_open
          ∙ ap (λ b. ok (write_index (if b then flush_current_block w else w))) some,
      write_index-table (flush_current_block w) bs h'
          (subst (λ es. 2 * Layout.cost es + 8 < 2 ^ 32) (sym same) small),
      h'.full,
      same,
    )
