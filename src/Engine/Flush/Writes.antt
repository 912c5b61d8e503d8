-- ===== src/Engine/Flush/Writes.antt =====
-- What writing a table file gives: a reader of the entries that were written.
use beachdb.Prelude.{
  ℕ, ◌+◌, ◌*◌, ◌^◌, ◌≡◌, ◌<◌, refl, sym, ◌∙◌, ap, subst, arith, true, false, ◌&&◌, Ordering, List,
  [], ◌∷◌, ◌++◌, Bytes, none, some, length, append_assoc, append-nil, All, All-map, Result, ok,
  ◌>>=◌, ltb, if◌then◌else◌, ◌==◌,
}
use beachdb.Coding.{IsU64}
use beachdb.Keys.{InternalKey, compare_keys}
use beachdb.Sstable.Block
use beachdb.Sstable.Block.{BlockEntry, new_block_builder}
use beachdb.Sstable.Reader.{scan_block, get}
use beachdb.Sstable.Reader.Scan.{IsAscending}
use beachdb.Sstable.Reader.Blocks.{entries_of, behind_last, Stores, answer}
use beachdb.Sstable.Reader.Lookup.{get-eq-scan}
use beachdb.Sstable.Writer.{Writer, new_writer, is_out_of_order}
use beachdb.Sstable.Writer.Layout
use beachdb.Sstable.Writer.Flushes.{Holds}
use beachdb.Sstable.Writer.Adds.{add-Holds}
use beachdb.Sstable.Writer.Opens.{table_bytes, open_reader-Stores, table_reader}
use beachdb.Sstable.Writer.Closes.{close-table}
use beachdb.Sstable.Iterator.{new_iterator, seek_to_first, collect}
use beachdb.Sstable.Iterator.Reads.{collect-seek_to_first}
use beachdb.Engine.{DbError}
use beachdb.Engine.Publish.{SstWriteResult}
use beachdb.Engine.Flush.{Range, seen, write_memtable_entries, write_ss_table, default_block_size}

abbrev pub first_key_of : List BlockEntry → InternalKey
first_key_of [] = Block.zero_key
first_key_of (e ∷ es) = e.key

-- What the writer and the loop remember of the entries that were written.
abbrev Remembers : Writer → List BlockEntry → Range → Type 0
Remembers w [] range = (w.has_entries ≡ false) × (range ≡ none)
Remembers w (d ∷ ds) range =
    (w.has_entries ≡ true)
    × (w.last_key ≡ Layout.last_key_of (d ∷ ds))
    × (range ≡ some (d.key, Layout.last_key_of (d ∷ ds)))

in_order :
    (w : Writer) (done : List BlockEntry) (range : Range) (e : BlockEntry) (es : List BlockEntry)
    → Remembers w done range
    → IsAscending (done ++ (e ∷ es))
    → (w.has_entries && is_out_of_order (compare_keys w.last_key e.key)) ≡ false
in_order w [] range e es (h, _) asc = rw h refl
in_order w (d ∷ ds) range e es (h, last, _) asc =
    let (lt, _) =
      behind_last (d ∷ ds) (e ∷ es) (Layout.last_key_of (d ∷ ds)) asc
        (Layout.last_key_of-LastKey (d ∷ ds) tt) in
    let after : compare_keys w.last_key e.key ≡ Ordering.lt =
      ap (λ (k : InternalKey). compare_keys k e.key) last ∙ lt in
    rw (h, after) refl

Remembers-next :
    (w w' : Writer) (done : List BlockEntry) (range : Range) (e : BlockEntry)
    → Remembers w done range
    → w'.has_entries ≡ true
    → w'.last_key ≡ e.key
    → Remembers w' (done ++ (e ∷ [])) (some (seen e.key range))
Remembers-next w w' [] range e (_, r) h last = (h, last, rw r refl)
Remembers-next w w' (d ∷ ds) range e (_, _, r) h last = (
  h,
  last ∙ sym (Layout.last_key_of-append (d ∷ ds) e),
  rw (r, Layout.last_key_of-append (d ∷ ds) e) refl,
)

abbrev Written : Result DbError (Writer × InternalKey × InternalKey) → List BlockEntry → Type 0
Written run all =
    (w : Writer) × (blocks : List (List BlockEntry)) × (current : List BlockEntry) × (run
      ≡ ok (w, first_key_of all, Layout.last_key_of all))
    × Holds w blocks current
    × (entries_of blocks ++ current ≡ all)

write_none :
    (w : Writer) (d : BlockEntry) (ds : List BlockEntry) (range : Range)
    → Remembers w (d ∷ ds) range
    → write_memtable_entries [] w range ≡ ok (w, d.key, Layout.last_key_of (d ∷ ds))
unfolding write_memtable_entries
write_none w d ds range (_, _, r) = rw r refl

-- The loop writes entries with ascending keys, behind those that are written.
write_memtable_entries-Written :
    (es done : List BlockEntry) (w : Writer) (blocks : List (List BlockEntry))
    (current : List BlockEntry) (range : Range)
    → Holds w blocks current
    → entries_of blocks ++ current ≡ done
    → Remembers w done range
    → IsAscending (done ++ es)
    → Layout.cost (done ++ es) < 2 ^ 32
    → Layout.IsSome (done ++ es)
    → Written (write_memtable_entries es w range) (done ++ es)
unfolding write_memtable_entries
write_memtable_entries-Written [] [] w blocks current range h same r asc small s = absurd s
write_memtable_entries-Written [] (d ∷ ds) w blocks current range h same r asc small s =
    subst (λ (all : List BlockEntry). Written (write_memtable_entries [] w range) all)
      (sym (append-nil (d ∷ ds))) (w, blocks, current, write_none w d ds range r, h, same)
write_memtable_entries-Written (e ∷ es) done w blocks current range h same r asc small s =
    let less : Layout.cost (entries_of blocks ++ current) < 2 ^ 32 =
      omega (arith, small, Layout.cost-append done (e ∷ es), ap Layout.cost same) in
    let (w', run, (bs, cur, h', same'), has, last) =
      add-Holds e.key e.value w blocks current h (in_order w done range e es r asc) less in
    let whole : (done ++ (e ∷ [])) ++ es ≡ done ++ (e ∷ es) = append_assoc done (e ∷ []) es in
    let (w'', bs', cur', runs, h'', same'') =
      write_memtable_entries-Written es (done ++ (e ∷ [])) w' bs cur (some (seen e.key range)) h'
        (same' ∙ ap (λ t. t ++ (e ∷ [])) same) (Remembers-next w w' done range e r has last)
        (subst IsAscending (sym whole) asc)
        (subst (λ all. Layout.cost all < 2 ^ 32) (sym whole) small)
        (subst Layout.IsSome (sym whole) s) in
    (
      w'',
      bs',
      cur',
      rw (run, ◌>>=◌) (runs ∙ ap (λ all. ok (w'', first_key_of all, Layout.last_key_of all)) whole),
      h'',
      same'' ∙ whole,
    )

abbrev chosen : ℕ → ℕ
chosen block_size = if ltb 0 block_size then block_size else default_block_size

new_writer-Holds :
    (size : ℕ)
    → (size == 0) ≡ false
    → (w : Writer) × (new_writer size ≡ ok w) × Holds w [] [] × (w.has_entries ≡ false)
unfolding new_writer new_block_builder
new_writer-Holds size pos = (
  record {
    file = [];
    current_block = new_block_builder;
    index_entries = [];
    offset = 0;
    entry_count = 0;
    data_block_count = 0;
    last_key = Block.zero_key;
    has_entries = false;
    closed = false;
    target_block_size = size;
  },
  rw pos refl,
  record {
    file = refl;
    index = refl;
    offset = refl;
    count = 0;
    first = Block.zero_key;
    builder = refl;
    full = tt;
    data_block_count = refl;
    entry_count = refl;
    is_open = refl;
  },
  refl,
)

-- What the flush of entries gives.
pub record IsTableOf (res : SstWriteResult) (entries : List BlockEntry) : Type 0 where
  pub blocks : List (List BlockEntry)
  pub stored : Stores res.reader res.reader.index_entries blocks
  pub same : entries_of blocks ≡ entries
  pub smallest : res.smallest ≡ first_key_of entries
  pub largest : res.largest ≡ Layout.last_key_of entries
  pub size : res.size ≡ length res.reader.file

module _ (block_size : ℕ) (entries : List BlockEntry) (some_entry : Layout.IsSome entries)
    (ascending : IsAscending entries) (fits : All Block.IsEncodable entries)
    (small : 2 * Layout.cost entries + 8 < 2 ^ 32) where
  pub write_ss_table-IsTableOf :
      (res : SstWriteResult) × (write_ss_table false block_size entries ≡ ok res)
      × IsTableOf res entries
  unfolding write_ss_table
  write_ss_table-IsTableOf =
      let pos : (chosen block_size == 0) ≡ false = ground arith in
      let (w, made, h, fresh) = new_writer-Holds (chosen block_size) pos in
      let (w', blocks, current, wrote, h', same) =
        write_memtable_entries-Written entries [] w [] [] none h refl (fresh, refl) ascending
          (omega (arith, small)) some_entry in
      let (w'', bs, closed, file, full, same') =
        close-table w' blocks current h'
          (subst (λ all. 2 * Layout.cost all + 8 < 2 ^ 32) (sym same) small) in
      let all : entries_of bs ≡ entries = same' ∙ same in
      let fits' = subst (All Block.IsEncodable) (sym all) fits in
      let small' = subst (λ es. 2 * Layout.cost es + 8 < 2 ^ 32) (sym all) small in
      let (opened, stored) = open_reader-Stores bs full fits' small' in
      let r = table_reader bs full fits' small' in
      (
        record {
          reader = r;
          smallest = first_key_of entries;
          largest = Layout.last_key_of entries;
          size = length (table_bytes bs);
        },
        rw (made, wrote, closed, file, opened, ◌>>=◌) refl,
        record {
          blocks = bs;
          stored = stored;
          same = all;
          smallest = refl;
          largest = refl;
          size = refl;
        },
      )

  -- Without the failpoint, entries that are not none, ascend strictly by key, are encodable and
  -- small enough for 32-bit sizes (twice their encoded length with 4 bytes for each, and 8, is
  -- below 2^32) are written to a table file that opens: a lookup of any user key at any sequence
  -- number gives what a scan of the entries gives, an iterator reads the entries back in order,
  -- and the result names the first key, the last key and the length of the file, whatever the
  -- block size.
  pub write_ss_table-reads :
      (user_key : Bytes) (seqno : ℕ)
      → (res : SstWriteResult) × (write_ss_table false block_size entries ≡ ok res)
        × (get res.reader user_key seqno ≡ answer (scan_block entries user_key seqno))
        × ((seek_to_first (new_iterator res.reader) >>= collect (length entries + 1)) ≡ ok entries)
        × (res.smallest ≡ first_key_of entries)
        × (res.largest ≡ Layout.last_key_of entries)
        × (res.size ≡ length res.reader.file)
  unfolding new_iterator
  write_ss_table-reads user_key seqno =
      let (res, run, t) = write_ss_table-IsTableOf in
      let small_keys =
        All-map Block.IsEncodable (λ e. IsU64 e.key.seqno) entries (λ e fit. fit.key.seqno) fits in
      (
        res,
        run,
        get-eq-scan user_key res.reader seqno t.blocks t.stored
              (subst IsAscending (sym t.same) ascending)
              (subst (All (λ e. IsU64 e.key.seqno)) (sym t.same) small_keys)
            ∙ ap (λ es. answer (scan_block es user_key seqno)) t.same,
        subst (λ es. (seek_to_first (new_iterator res.reader) >>= collect (length es + 1)) ≡ ok es)
            t.same
            (collect-seek_to_first res.reader (new_iterator res.reader) t.blocks refl t.stored),
        t.smallest,
        t.largest,
        t.size,
      )
