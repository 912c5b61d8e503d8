-- ===== src/Sstable/Writer/Adds.antt =====
-- Adding entries keeps what the writer's state holds.
use beachdb.Prelude.{
  ℕ, ◌+◌, ◌^◌, ◌≡◌, ◌<◌, refl, sym, ◌∙◌, ap, subst, arith, Bool, true, false, ◌&&◌, not, List, [],
  ◌∷◌, ◌++◌, Bytes, length, append_assoc, append-nil, ok, inl, inr, Bool-cases, if◌then◌else◌, ltb,
}
use beachdb.Keys.{InternalKey, compare_keys}
use beachdb.Sstable.Block
use beachdb.Sstable.Block.{BlockEntry, BlockBuilder, encode_entry, zero_key}
use beachdb.Sstable.Block.Codec.{encode_entry_of, encode_entries}
use beachdb.Sstable.Reader.Blocks.{entries_of}
use beachdb.Sstable.Writer.{
  Writer, add, make_room, append_entry, flush_current_block, is_out_of_order,
}
use beachdb.Sstable.Writer.Layout
use beachdb.Sstable.Writer.Flushes.{
  is_some, builder_of, Holds, entries_of-snoc, length-snoc, flush-Holds,
}

encode_entries-snoc :
    (es : List BlockEntry) (e : BlockEntry)
    → encode_entries (es ++ (e ∷ [])) ≡ encode_entries es ++ encode_entry_of e
encode_entries-snoc [] e = append-nil (encode_entry_of e)
encode_entries-snoc (x ∷ es) e =
    ap (λ t. encode_entry_of x ++ t) (encode_entries-snoc es e)
    ∙ sym (append_assoc (encode_entry_of x) (encode_entries es) (encode_entry_of e))

is_some-snoc : (es : List BlockEntry) (e : BlockEntry) → is_some (es ++ (e ∷ [])) ≡ true
is_some-snoc [] e = refl
is_some-snoc (x ∷ es) e = refl

module _ (key : InternalKey) (value : Bytes) where
  abbrev entry : BlockEntry
  entry = record { key = key; value = value }

  add-builder_of :
      (es : List BlockEntry) (count : ℕ) (first : InternalKey)
      → (n : ℕ) × (k : InternalKey) × (Block.add key value (builder_of es count first)
          ≡ builder_of (es ++ (entry ∷ [])) n k)
  unfolding Block.add
  add-builder_of es count first = (
    count + 1,
    if is_some es then first else key,
    rw (encode_entries-snoc es entry, Layout.last_key_of-append es entry, is_some-snoc es entry)
        refl,
  )

  abbrev overflows : Writer → Bool
  overflows w =
      not (Block.is_empty w.current_block)
      && ltb w.target_block_size (Block.size w.current_block + Block.encoded_entry_size key value)

  make_room_if :
      (w : Writer) → make_room key value w ≡ (if overflows w then flush_current_block w else w)
  unfolding make_room
  make_room_if w = refl

  -- What the current block's entries and the written blocks are, when there is room for the entry.
  abbrev Keeps : Writer → List BlockEntry → Type 0
  Keeps w all =
      (blocks : List (List BlockEntry)) × (current : List BlockEntry) × Holds w blocks current
      × (entries_of blocks ++ current ≡ all)

  make_room-Keeps :
      (w : Writer) (blocks : List (List BlockEntry)) (current : List BlockEntry)
      → Holds w blocks current
      → Layout.cost (entries_of blocks ++ current) < 2 ^ 32
      → Keeps (make_room key value w) (entries_of blocks ++ current)
  make_room-Keeps w blocks [] h small =
      let empty : Block.is_empty w.current_block ≡ true =
        ap Block.is_empty h.builder ∙ unfold Block.is_empty in refl in
      let stays : make_room key value w ≡ w = make_room_if w ∙ rw empty refl in
      subst (λ (v : Writer). Keeps v (entries_of blocks ++ [])) (sym stays) (blocks, [], h, refl)
  make_room-Keeps w blocks (e ∷ es) h small = elim (Bool-cases (overflows w)) [
    | inr fits ↦
        subst (λ (v : Writer). Keeps v (entries_of blocks ++ (e ∷ es)))
          (sym (make_room_if w ∙ ap (λ b. if b then flush_current_block w else w) fits))
          (blocks, e ∷ es, h, refl)
    | inl full ↦
        subst (λ (v : Writer). Keeps v (entries_of blocks ++ (e ∷ es)))
          (sym (make_room_if w ∙ ap (λ b. if b then flush_current_block w else w) full))
          (
            blocks ++ ((e ∷ es) ∷ []),
            [],
            flush-Holds w blocks (e ∷ es) h tt small,
            append-nil (entries_of (blocks ++ ((e ∷ es) ∷ []))) ∙ entries_of-snoc blocks (e ∷ es),
          )
  ]

  append_entry-Holds :
      (w : Writer) (blocks : List (List BlockEntry)) (current : List BlockEntry)
      → Holds w blocks current
      → length (entries_of blocks ++ current) < 2 ^ 32
      → Holds (append_entry key value w) blocks (current ++ (entry ∷ []))
  unfolding append_entry
  append_entry-Holds w blocks current h small =
      let (n, k, built) = add-builder_of current h.count h.first in
      record {
        file = h.file;
        index = h.index;
        offset = h.offset;
        count = n;
        first = k;
        builder = ap (Block.add key value) h.builder ∙ built;
        full = h.full;
        data_block_count = h.data_block_count;
        entry_count = omega (
          arith,
          h.entry_count,
          small,
          ap (length {A = BlockEntry}) (append_assoc (entries_of blocks) current (entry ∷ [])),
          length-snoc (entries_of blocks ++ current) entry,
        );
        is_open = h.is_open;
      }

  add_runs :
      (w : Writer)
      → w.closed ≡ false
      → (w.has_entries && is_out_of_order (compare_keys w.last_key key)) ≡ false
      → add key value w ≡ ok (append_entry key value (make_room key value w))
  unfolding add
  add_runs w opened order = rw (opened, order) refl

  -- A key behind all others is added.
  pub add-Holds :
      (w : Writer) (blocks : List (List BlockEntry)) (current : List BlockEntry)
      → Holds w blocks current
      → (w.has_entries && is_out_of_order (compare_keys w.last_key key)) ≡ false
      → Layout.cost (entries_of blocks ++ current) < 2 ^ 32
      → (w' : Writer) × (add key value w ≡ ok w')
        × Keeps w' ((entries_of blocks ++ current) ++ (entry ∷ []))
        × (w'.has_entries ≡ true)
        × (w'.last_key ≡ key)
  unfolding append_entry
  add-Holds w blocks current h order small =
      let (bs, cur, h', same) = make_room-Keeps w blocks current h small in
      let few : length (entries_of bs ++ cur) < 2 ^ 32 = omega (
        arith,
        small,
        Layout.length-cost (entries_of blocks ++ current),
        ap (length {A = BlockEntry}) same,
      ) in
      (
        append_entry key value (make_room key value w),
        add_runs w h.is_open order,
        (
          bs,
          cur ++ (entry ∷ []),
          append_entry-Holds (make_room key value w) bs cur h' few,
          sym (append_assoc (entries_of bs) cur (entry ∷ [])) ∙ ap (λ t. t ++ (entry ∷ [])) same,
        ),
        refl,
        refl,
      )
