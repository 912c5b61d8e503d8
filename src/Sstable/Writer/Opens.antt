-- ===== src/Sstable/Writer/Opens.antt =====
-- What Close writes, and that a reader opens it: the reader stores the blocks of the writer.
use beachdb.Prelude.{
  ℕ, ◌+◌, ◌-◌, ◌*◌, ◌^◌, ◌≡◌, ◌≤◌, ◌<◌, refl, sym, ◌∙◌, ap, subst, arith, false, List, [], ◌∷◌,
  ◌++◌, Bytes, some, length, length-append, append_assoc, All, All-left, All-right, All-map,
  append-nil, take-append_length, drop-append_length, ok, ◌>>=◌, ltb, leb, ◌==◌,
}
use beachdb.Coding.{IsU32}
use beachdb.Keys.{encode, IsValidKey}
use beachdb.Sstable.Errors.{corrupt_footer, corrupt_index}
use beachdb.Sstable.Block
use beachdb.Sstable.Block.{BlockEntry, BlockBuilder}
use beachdb.Sstable.Block.Codec.{
  encode_entries, verify_block_checksum_lem, decode_block_entries-encode_entries,
}
use beachdb.Sstable.Index
use beachdb.Sstable.Index.{IndexEntry, build_index_block, encode_index_entries}
use beachdb.Sstable.Index.Codec.{decode_index_block-build_index_block}
use beachdb.Sstable.Footer.{Footer, IsFooter, footer_size, encode_footer, decode_footer}
use beachdb.Sstable.Footer.Codec.{decode_footer-encode_footer, length-encode_footer}
use beachdb.Sstable.Reader.{
  Reader, read_at, or_corrupt, read_block, open_reader, read_footer, read_index_entries,
}
use beachdb.Sstable.Reader.Blocks.{entries_of, Loads, Stores, All-LastKey}
use beachdb.Sstable.Writer.Layout

abbrev pub footer_of : List (List BlockEntry) → Footer
footer_of bs = record {
  index_offset = length (Layout.bytes_of bs);
  index_size = length (build_index_block (Layout.index_of 0 bs));
  data_block_count = length bs;
  entry_count = length (entries_of bs);
}

-- The whole file of a table.
abbrev pub table_bytes : List (List BlockEntry) → Bytes
table_bytes bs =
    Layout.bytes_of bs ++ (build_index_block (Layout.index_of 0 bs) ++ encode_footer (footer_of bs))

-- A read of the bytes between two others.
read_at-append :
    (pre mid post : Bytes)
    → length (pre ++ (mid ++ post)) < 2 ^ 63
    → read_at (pre ++ (mid ++ post)) (length pre) (length mid) ≡ some mid
unfolding read_at
read_at-append pre [] post small =
    let inside : leb (2 ^ 63) (length pre) ≡ false =
      ground (arith, small, length-append pre post) in
    rw inside refl
read_at-append pre (m ∷ ms) post small =
    let mid = m ∷ ms in
    let whole : length (pre ++ (mid ++ post)) ≡ length pre + (length mid + length post) =
      omega (arith, length-append pre (mid ++ post), length-append mid post) in
    let inside : leb (2 ^ 63) (length pre) ≡ false = ground (arith, whole, small) in
    let within : ltb (length (pre ++ (mid ++ post))) (length pre + length mid) ≡ false =
      ground (arith, whole) in
    let more : (length mid == 0) ≡ false = ground arith in
    rw (inside, more, within, drop-append_length pre (mid ++ post))
      (ap some (take-append_length mid post))

read_footer_of :
    (file mid : Bytes)
    → read_at file (length file - footer_size) footer_size ≡ some mid
    → read_footer file ≡ decode_footer mid
unfolding read_footer
read_footer_of file mid e = ap (λ o. or_corrupt o corrupt_footer >>= decode_footer) e

read_index_entries_of :
    (file mid : Bytes) (f : Footer)
    → read_at file f.index_offset f.index_size ≡ some mid
    → read_index_entries file f ≡ Index.decode_index_block mid
unfolding read_index_entries
read_index_entries_of file mid f e =
    ap (λ o. or_corrupt o corrupt_index >>= Index.decode_index_block) e

-- The bytes of the blocks that an index names.
module _ (r : Reader) where
  block-Loads :
      (pre post : Bytes) (b : List BlockEntry)
      → Layout.IsSome b
      → All Block.IsEncodable b
      → r.file ≡ pre ++ (Layout.block_bytes b ++ post)
      → length (pre ++ (Layout.block_bytes b ++ post)) < 2 ^ 63
      → Loads r (Layout.index_entry_of (length pre) b) b
  block-Loads pre post b s fits same small = record {
    payload = encode_entries b;
    reads =
        let here : read_at r.file (length pre) (length (Layout.block_bytes b))
            ≡ some (Layout.block_bytes b) =
          ap (λ f. read_at f (length pre) (length (Layout.block_bytes b))) same
          ∙ read_at-append pre (Layout.block_bytes b) post small in
        unfold read_block in rw here (verify_block_checksum_lem (encode_entries b));
    decodes = decode_block_entries-encode_entries b fits;
    last = Layout.last_key_of-LastKey b s;
  }

  pub index_of-Stores :
      (pre post : Bytes) (bs : List (List BlockEntry))
      → All Layout.IsSome bs
      → All Block.IsEncodable (entries_of bs)
      → r.file ≡ pre ++ (Layout.bytes_of bs ++ post)
      → length r.file < 2 ^ 63
      → Stores r (Layout.index_of (length pre) bs) bs
  index_of-Stores pre post [] s fits same small = tt
  index_of-Stores pre post (b ∷ bs) (s, ss) fits same small =
      let bb = Layout.block_bytes b in
      let behind = Layout.bytes_of bs ++ post in
      let here : r.file ≡ pre ++ (bb ++ behind) =
        same ∙ ap (λ t. pre ++ t) (append_assoc bb (Layout.bytes_of bs) post) in
      (
        block-Loads pre behind b s (All-left Block.IsEncodable b (entries_of bs) fits) here
            (omega (arith, small, ap (length {A = ℕ}) here)),
        subst (λ (n : ℕ). Stores r (Layout.index_of n bs) bs) (length-append pre bb)
            (index_of-Stores (pre ++ bb) post bs ss
              (All-right Block.IsEncodable b (entries_of bs) fits)
              (here ∙ sym (append_assoc pre bb behind)) small),
      )

module _ (bs : List (List BlockEntry)) (full : All Layout.IsSome bs)
    (fits : All Block.IsEncodable (entries_of bs))
    (small : 2 * Layout.cost (entries_of bs) + 8 < 2 ^ 32) where
  index-IsEncodable :
      (offset : ℕ) (cs : List (List BlockEntry))
      → All Layout.IsSome cs
      → All Block.IsEncodable (entries_of cs)
      → offset + Layout.cost (entries_of cs) < 2 ^ 32
      → All Index.IsEncodable (Layout.index_of offset cs)
  index-IsEncodable offset [] s f lt = tt
  index-IsEncodable offset (c ∷ cs) (s, ss) f lt =
      let here = All-left Block.IsEncodable c (entries_of cs) f in
      let last = Layout.last_key_of-LastKey c s in
      let sum : Layout.cost (c ++ entries_of cs) ≡ Layout.cost c + Layout.cost (entries_of cs) =
        Layout.cost-append c (entries_of cs) in
      let fits_block = Layout.block_bytes-cost c s in
      (
        record {
          last_key =
              All-LastKey IsValidKey c (Layout.last_key_of c)
                (All-map Block.IsEncodable (λ e. IsValidKey e.key) c (λ e fit. fit.key) here) last;
          key_size =
              All-LastKey (λ k. IsU32 (length (encode k))) c (Layout.last_key_of c)
                (All-map Block.IsEncodable (λ e. IsU32 (length (encode e.key))) c
                  (λ e fit. fit.key_size) here)
                last;
          offset = omega (arith, lt);
          size = omega (arith, lt, sum, fits_block);
        },
        index-IsEncodable (offset + length (Layout.block_bytes c)) cs ss
            (All-right Block.IsEncodable c (entries_of cs) f) (omega (arith, lt, sum, fits_block)),
      )

  footer_of-IsFooter : IsFooter (footer_of bs)
  footer_of-IsFooter = record {
    index_offset = omega (arith, Layout.bytes_of-cost bs full, small);
    index_size = omega (arith, Layout.length-build_index_block 0 bs full, small);
    data_block_count =
        omega (arith, Layout.length-blocks bs full, Layout.length-cost (entries_of bs), small);
    entry_count = omega (arith, Layout.length-cost (entries_of bs), small);
  }

  length-table : length (table_bytes bs) ≤ 3 * Layout.cost (entries_of bs) + 4 + footer_size
  length-table = omega (
    arith,
    Layout.bytes_of-cost bs full,
    Layout.length-build_index_block 0 bs full,
    length-encode_footer (footer_of bs),
    length-append (Layout.bytes_of bs)
        (build_index_block (Layout.index_of 0 bs) ++ encode_footer (footer_of bs)),
    length-append (build_index_block (Layout.index_of 0 bs)) (encode_footer (footer_of bs)),
  )

  length-whole : footer_size ≤ length (table_bytes bs)
  length-whole = omega (
    arith,
    length-encode_footer (footer_of bs),
    length-append (Layout.bytes_of bs)
        (build_index_block (Layout.index_of 0 bs) ++ encode_footer (footer_of bs)),
    length-append (build_index_block (Layout.index_of 0 bs)) (encode_footer (footer_of bs)),
  )

  abbrev pub table_reader : Reader
  table_reader = record {
    file = table_bytes bs;
    file_size = length (table_bytes bs);
    footer = footer_of bs;
    index_entries = Layout.index_of 0 bs;
  }

  abbrev index_block : Bytes
  index_block = build_index_block (Layout.index_of 0 bs)

  small_table : length (table_bytes bs) < 2 ^ 63
  small_table = omega (arith, length-table, small)

  abbrev blocks_bytes : Bytes
  blocks_bytes = Layout.bytes_of bs

  footer_at :
      read_at (table_bytes bs) (length (table_bytes bs) - footer_size) footer_size
      ≡ some (encode_footer (footer_of bs))
  footer_at =
      let front = blocks_bytes ++ index_block in
      let foot = encode_footer (footer_of bs) in
      let whole : table_bytes bs ≡ front ++ (foot ++ []) =
        sym (append_assoc blocks_bytes index_block foot)
        ∙ ap (λ t. front ++ t) (sym (append-nil foot)) in
      let size : length foot ≡ footer_size = length-encode_footer (footer_of bs) in
      let offset : length (table_bytes bs) - footer_size ≡ length front = omega (
        arith,
        ap (length {A = ℕ}) whole,
        size,
        length-append front (foot ++ []),
        length-append foot [],
      ) in
      ap (λ (n : ℕ). read_at (table_bytes bs) n footer_size) offset
      ∙ ap (λ t. read_at t (length front) footer_size) whole
      ∙ ap (λ (n : ℕ). read_at (front ++ (foot ++ [])) (length front) n) (sym size)
      ∙ read_at-append front foot [] (omega (arith, small_table, ap (length {A = ℕ}) whole))

  read_footer-table : read_footer (table_bytes bs) ≡ ok (footer_of bs)
  read_footer-table =
      read_footer_of (table_bytes bs) (encode_footer (footer_of bs)) footer_at
      ∙ decode_footer-encode_footer (footer_of bs) footer_of-IsFooter

  read_index_entries-table :
      read_index_entries (table_bytes bs) (footer_of bs) ≡ ok (Layout.index_of 0 bs)
  read_index_entries-table =
      read_index_entries_of (table_bytes bs) index_block (footer_of bs)
        (read_at-append blocks_bytes index_block (encode_footer (footer_of bs)) small_table)
      ∙ decode_index_block-build_index_block (Layout.index_of 0 bs)
          (index-IsEncodable 0 bs full fits (omega (arith, small)))

  -- The file of a table opens, and the reader stores its blocks.
  pub open_reader-Stores :
      (open_reader (table_bytes bs) ≡ ok table_reader)
      × Stores table_reader (Layout.index_of 0 bs) bs
  unfolding open_reader
  open_reader-Stores =
      let long : ltb (length (table_bytes bs)) footer_size ≡ false = ground (arith, length-whole) in
      (
        rw (long, read_footer-table, read_index_entries-table) refl,
        index_of-Stores table_reader []
            (build_index_block (Layout.index_of 0 bs) ++ encode_footer (footer_of bs)) bs full fits
            refl (omega (arith, length-table, small)),
      )
