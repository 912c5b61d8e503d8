-- ===== src/Sstable/Iterator/Reads.antt =====
-- The iterator from a seek on: which entries it visits.
use beachdb.Prelude.{
  ℕ, ◌+◌, ◌-◌, ◌≡◌, ◌≤◌, ◌<◌, refl, sym, ◌∙◌, ap, subst, arith, false, List, [], ◌∷◌, Bytes, Option,
  none, some, length, length-drop, drop, ok, err, ◌>>=◌, ◌==◌, if◌then◌else◌, All,
}
use beachdb.Coding.{IsU64}
use beachdb.Sstable.Errors.{SstError, iterator_closed}
use beachdb.Sstable.Block.{BlockEntry}
use beachdb.Sstable.Index.{IndexEntry}
use beachdb.Sstable.Reader.{Reader, seek_block, max_lookup_key, at_least, entry_at}
use beachdb.Sstable.Reader.Scan.{IsAscending}
use beachdb.Sstable.Reader.Blocks.{entries_of, Stores}
use beachdb.Sstable.Reader.Seek.{search_range-IsFirst, beyond_end, at_least-IsMonotone}
use beachdb.Sstable.Reader.Lookup.{Stores-IsSortedIndex}
use beachdb.Sstable.Iterator.{
  Iterator, Run, seek_to_first, seek, seek_from, close, collect, at, stop, loading,
}
use beachdb.Sstable.Iterator.Walk.{
  Leads, load-Loads, loading-ok, index-drop, at-Stands, collect-Stands,
}
use beachdb.Sstable.Iterator.Seek.{drop_lower, skip, seek_from-Leads}

module _ (r : Reader) where
  abbrev first_of : Iterator → Reader → Run Iterator
  first_of it r =
      let it' : Iterator = record it { block_idx = 0 } in
      if length r.index_entries == 0
      then ok (stop none it')
      else loading r 0 it' (λ entries. ok (at 0 entries 0 it'))

  seek_to_first-open : (it : Iterator) → it.reader ≡ some r → seek_to_first it ≡ first_of it r
  unfolding seek_to_first
  seek_to_first-open it rd =
      ap
        (λ (o : Option Reader). elim o [
          | none ↦ ok (stop (some iterator_closed) it)
          | some x ↦ first_of it x
        ])
        rd

  first_of-Leads :
      (it : Iterator) (es : List IndexEntry) (bs : List (List BlockEntry))
      → it.reader ≡ some r
      → r.index_entries ≡ es
      → Stores r es bs
      → Leads r (first_of it r) (entries_of bs)
  first_of-Leads it [] [] rd same st =
      (stop none (record it { block_idx = 0 }), rw (ap (length {A = IndexEntry}) same) refl, refl)
  first_of-Leads it [] (b ∷ bs) rd same st = absurd st
  first_of-Leads it (x ∷ xs) [] rd same st = absurd st
  first_of-Leads it (x ∷ xs) (b ∷ bs) rd same (l, st) =
      let it' : Iterator = record it { block_idx = 0 } in
      let (_, _, after) = index-drop {E = SstError} 0 r.index_entries x xs same in
      let some_there : (length r.index_entries == 0) ≡ false =
        ground (arith, ap (length {A = IndexEntry}) same) in
      (
        at 0 b 0 it',
        rw some_there (
            loading-ok r 0 it' (λ entries. ok (at 0 entries 0 it')) b
              (load-Loads r 0 x xs b same l)),
        at-Stands r 0 (at 0 b 0 it') b bs rd refl refl refl refl
            (subst (λ (t : List IndexEntry). Stores r t bs) (sym after) st) x.last_key l.last,
      )

  reads :
      (fuel : ℕ) (run : Run Iterator) (es : List BlockEntry)
      → length es < fuel
      → Leads r run es
      → (run >>= collect fuel) ≡ ok es
  reads fuel run es lt (it, e, s) = rw e (collect-Stands r fuel it es lt s)

  -- On a table whose index entries load the blocks they name, an open iterator reads every entry
  -- of the table from SeekToFirst on, block after block, and then ends.
  pub collect-seek_to_first :
      (it : Iterator) (bs : List (List BlockEntry))
      → it.reader ≡ some r
      → Stores r r.index_entries bs
      → (seek_to_first it >>= collect (length (entries_of bs) + 1)) ≡ ok (entries_of bs)
  collect-seek_to_first it bs rd st =
      ap (λ run. run >>= collect (length (entries_of bs) + 1)) (seek_to_first-open it rd)
      ∙ reads (length (entries_of bs) + 1) (first_of it r) (entries_of bs) (omega arith)
          (first_of-Leads it r.index_entries bs rd refl st)

  module _ (target : Bytes) where
    seek-open :
        (it : Iterator)
        → it.reader ≡ some r
        → seek target it
          ≡ seek_from
              (length r.index_entries - seek_block r.index_entries target)
              r
              target
              (seek_block r.index_entries target)
              it
    unfolding seek
    seek-open it rd =
        ap
          (λ (o : Option Reader). elim o [
            | none ↦ ok (stop (some iterator_closed) it)
            | some x ↦
                seek_from (length x.index_entries - seek_block x.index_entries target) x target
                  (seek_block x.index_entries target) it
          ])
          rd

    length-drop_lower : (es : List BlockEntry) → length (drop_lower target es) ≤ length es
    unfolding drop_lower
    length-drop_lower [] = omega arith
    length-drop_lower (e ∷ es) = ground (arith, length-drop_lower es)

    -- On a table whose index entries load the blocks they name, with keys that ascend strictly and
    -- sequence numbers below 2^64, an open iterator that seeks a user key reads all entries from
    -- the first on whose user key is not below it.
    pub collect-seek :
        (it : Iterator) (bs : List (List BlockEntry))
        → it.reader ≡ some r
        → Stores r r.index_entries bs
        → IsAscending (entries_of bs)
        → All (λ e. IsU64 e.key.seqno) (entries_of bs)
        → (seek target it >>= collect (length (entries_of bs) + 1))
          ≡ ok (drop_lower target (entries_of bs))
    unfolding seek_block
    collect-seek it bs rd st asc u =
        let es = r.index_entries in
        let first =
          search_range-IsFirst (λ i. at_least (max_lookup_key target) (entry_at es i))
            (at_least-IsMonotone (max_lookup_key target) es (Stores-IsSortedIndex r es bs st asc))
            (length es) 0 (length es) (omega arith) (omega arith) (λ k h. absurd (omega arith))
            (beyond_end (max_lookup_key target) es) in
        let i = seek_block es target in
        let (rest, st', same) = skip target r i es bs st asc u first.before in
        let way =
          seek_from-Leads target r (length es - i) i it (drop i es) rest rd refl
            (sym (length-drop i es)) st' in
        ap (λ run. run >>= collect (length (entries_of bs) + 1)) (seek-open it rd)
        ∙ reads (length (entries_of bs) + 1) (seek_from (length es - i) r target i it)
            (drop_lower target (entries_of rest))
            (omega (arith, ap (length {A = BlockEntry}) same, length-drop_lower (entries_of bs)))
            way
        ∙ ap ok (sym same)

reader_none : (it : Iterator) → (close it).1.reader ≡ none
unfolding close
reader_none it = ground arith

module _ (it : Iterator) (closed : it.reader ≡ none) where
  seek_to_first_closed : seek_to_first it ≡ ok (stop (some iterator_closed) it)
  unfolding seek_to_first
  seek_to_first_closed = ground (arith, closed)

  seek_closed : (target : Bytes) → seek target it ≡ ok (stop (some iterator_closed) it)
  unfolding seek
  seek_closed target = ground (arith, closed)

  close_closed : (close it).0 ≡ err iterator_closed
  unfolding close
  close_closed = ground (arith, closed)

-- After Close an iterator has no reader, SeekToFirst and Seek leave it invalid with the error that
-- it is closed, and a second Close reports that error.
pub close-ends :
    (it : Iterator) (target : Bytes)
    → ((close it).1.reader ≡ none)
      × (seek_to_first (close it).1 ≡ ok (stop (some iterator_closed) (close it).1))
      × (seek target (close it).1 ≡ ok (stop (some iterator_closed) (close it).1))
      × ((close (close it).1).0 ≡ err iterator_closed)
close-ends it target =
    let none_left = reader_none it in
    (
      none_left,
      seek_to_first_closed (close it).1 none_left,
      seek_closed (close it).1 none_left target,
      close_closed (close it).1 none_left,
    )
