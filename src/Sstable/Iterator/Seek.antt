-- ===== src/Sstable/Iterator/Seek.antt =====
-- Seek over the blocks of a table: where it stops.
use beachdb.Prelude.{
  ℕ, zero, suc, ◌+◌, ◌≡◌, ◌≢◌, ◌<◌, refl, sym, ◌∙◌, ap, subst, arith, Ordering, false, List, [],
  ◌∷◌, ◌++◌, Bytes, Option, none, some, length, drop, ok, append_assoc, All, All-left, All-right,
  ◌⊎◌, inl, inr,
}
use beachdb.Coding.{IsU64}
use beachdb.Keys.{InternalKey, compare_keys, compare_bytes}
use beachdb.Sstable.Errors.{SstError}
use beachdb.Sstable.Block.{BlockEntry}
use beachdb.Sstable.Index.{IndexEntry}
use beachdb.Sstable.Reader.{Reader, load_block_entries, max_lookup_key, at_least, entry_at}
use beachdb.Sstable.Reader.Scan.{KeyLt, IsAscending}
use beachdb.Sstable.Reader.Blocks.{entries_of, Stores, IsAscending-right}
use beachdb.Sstable.Reader.Seek.{lt_of_at_least}
use beachdb.Sstable.Reader.Lookup.{before_last}
use beachdb.Sstable.Iterator.{Iterator, Run, seek_from, find_entry, at, stop}
use beachdb.Sstable.Iterator.Walk.{Stands, Leads, load-Loads, loading-ok, index-drop}

-- The entries from the first on whose user key is not below the target.
unfoldable pub drop_lower : Bytes → List BlockEntry → List BlockEntry
drop_lower target [] = []
drop_lower target (e ∷ es) = elim (compare_bytes e.key.user_key target) [
  | Ordering.lt ↦ drop_lower target es
  | _ ↦ e ∷ es
]

Order-cases : (o : Ordering) → (o ≡ Ordering.lt) ⊎ (o ≢ Ordering.lt)
Order-cases Ordering.lt = inl refl
Order-cases Ordering.eq = inr (λ e. cc)
Order-cases Ordering.gt = inr (λ e. cc)

match_ge :
    {A : Type 0} (o : Ordering) (x y : A) → o ≢ Ordering.lt → elim o [ Ordering.lt ↦ x | _ ↦ y ] ≡ y
match_ge Ordering.lt x y h = absurd (h refl)
match_ge Ordering.eq x y h = refl
match_ge Ordering.gt x y h = refl

module _ (target : Bytes) where
  abbrev IsLower : BlockEntry → Type 0
  IsLower e = compare_bytes e.key.user_key target ≡ Ordering.lt

  drop_lower-append :
      (es fs : List BlockEntry)
      → All IsLower es
      → drop_lower target (es ++ fs) ≡ drop_lower target fs
  unfolding drop_lower
  drop_lower-append [] fs h = refl
  drop_lower-append (e ∷ es) fs (h, hs) = rw (h, drop_lower) (drop_lower-append es fs hs)

  drop_lower_ge :
      (e : BlockEntry) (es : List BlockEntry)
      → compare_bytes e.key.user_key target ≢ Ordering.lt
      → drop_lower target (e ∷ es) ≡ e ∷ es
  unfolding drop_lower
  drop_lower_ge e es ge =
      match_ge (compare_bytes e.key.user_key target) (drop_lower target es) (e ∷ es) ge

  -- The loop over a block finds its first entry that is not below the target, or none.
  abbrev Finds : List BlockEntry → ℕ → Type 0
  Finds es i =
      ((find_entry target es i ≡ none) × All IsLower es)
      ⊎ ((front : List BlockEntry) × (e : BlockEntry) × (ahead : List BlockEntry) × (find_entry
              target es i
            ≡ some (i + length front))
          × (es ≡ front ++ (e ∷ ahead))
          × All IsLower front
          × (compare_bytes e.key.user_key target ≢ Ordering.lt))

  find_entry-Finds : (es : List BlockEntry) (i : ℕ) → Finds es i
  unfolding find_entry
  find_entry-Finds [] i = inl (refl, tt)
  find_entry-Finds (e ∷ es) i = elim (Order-cases (compare_bytes e.key.user_key target)) [
    | inr ge ↦ inr (
      [],
      e,
      es,
      match_ge (compare_bytes e.key.user_key target) (find_entry target es (i + 1)) (some i) ge
          ∙ ap some (omega arith),
      refl,
      tt,
      ge,
    )
    | inl lt ↦ on lt (find_entry-Finds es (i + 1))
  ]
    where
      on : compare_bytes e.key.user_key target ≡ Ordering.lt → Finds es (i + 1) → Finds (e ∷ es) i
      on lt (inl (run, h)) = inl (rw (lt, find_entry) run, (lt, h))
      on lt (inr (front, x, ahead, run, same, h, ge)) = inr (
        e ∷ front,
        x,
        ahead,
        rw (lt, find_entry) (run ∙ ap some (omega arith)),
        ap (λ t. e ∷ t) same,
        (lt, h),
        ge,
      )

  lower_of_lt :
      (k : InternalKey)
      → IsU64 k.seqno
      → KeyLt k (max_lookup_key target)
      → compare_bytes k.user_key target ≡ Ordering.lt
  unfolding compare_keys max_lookup_key
  lower_of_lt k small lt = ground (arith, lt)

  All-IsLower :
      (b : List BlockEntry)
      → All (λ e. IsU64 e.key.seqno) b
      → All (λ x. KeyLt x.key (max_lookup_key target)) b
      → All IsLower b
  All-IsLower [] u h = tt
  All-IsLower (e ∷ es) (u, us) (h, hs) = (lower_of_lt e.key u h, All-IsLower es us hs)

  module _ (r : Reader) where
    -- The blocks that the binary search skips have lower user keys only.
    pub skip :
        (n : ℕ) (es : List IndexEntry) (bs : List (List BlockEntry))
        → Stores r es bs
        → IsAscending (entries_of bs)
        → All (λ e. IsU64 e.key.seqno) (entries_of bs)
        → ((k : ℕ) → k < n → at_least (max_lookup_key target) (entry_at es k) ≡ false)
        → (rest : List (List BlockEntry)) × Stores r (drop n es) rest
          × (drop_lower target (entries_of bs) ≡ drop_lower target (entries_of rest))
    skip zero es bs st asc u before = (bs, st, refl)
    skip (suc n) [] [] st asc u before = ([], tt, refl)
    skip (suc n) [] (b ∷ bs) st asc u before = absurd st
    skip (suc n) (e ∷ es) [] st asc u before = absurd st
    skip (suc n) (e ∷ es) (b ∷ bs) (l, st) asc u before =
        let lt =
          lt_of_at_least (max_lookup_key target) e (unfold entry_at in before 0 (omega arith)) in
        let here = All-left (λ e. IsU64 e.key.seqno) b (entries_of bs) u in
        let behind = All-right (λ e. IsU64 e.key.seqno) b (entries_of bs) u in
        let (rest, st', same) =
          skip n es bs st (IsAscending-right b (entries_of bs) asc) behind
            (λ k h. unfold entry_at in before (suc k) (omega arith)) in
        (
          rest,
          st',
          drop_lower-append b (entries_of bs) (
                All-IsLower b here
                  (before_last (max_lookup_key target) e.last_key b (entries_of bs) asc l.last lt))
              ∙ same,
        )

    -- After a block is loaded: the iterator stops in it, or goes on to the next.
    abbrev after_block : ℕ → ℕ → Iterator → List BlockEntry → Option ℕ → Run Iterator
    after_block rounds i it entries o = elim o [
      | some entry_idx ↦ ok (at i entries entry_idx it)
      | none ↦ seek_from rounds r target (i + 1) it
    ]

    seek_from-step :
        (rounds i : ℕ) (it : Iterator) (b : List BlockEntry)
        → load_block_entries r i ≡ ok b
        → seek_from (suc rounds) r target i it ≡ after_block rounds i it b (find_entry target b 0)
    unfolding seek_from
    seek_from-step rounds i it b e =
        loading-ok r i it (λ entries. after_block rounds i it entries (find_entry target entries 0))
          b e

    stops_at :
        (i : ℕ) (it : Iterator) (b : List BlockEntry) (bs : List (List BlockEntry))
        (front : List BlockEntry) (e : BlockEntry) (ahead : List BlockEntry)
        → it.reader ≡ some r
        → b ≡ front ++ (e ∷ ahead)
        → All IsLower front
        → compare_bytes e.key.user_key target ≢ Ordering.lt
        → Stores r (drop (i + 1) r.index_entries) bs
        → Stands r (at i b (length front) it) (drop_lower target (b ++ entries_of bs))
    stops_at i it b bs front e ahead rd same lower ge st =
        subst (Stands r (at i b (length front) it))
          (sym (
            ap (λ t. drop_lower target (t ++ entries_of bs)) same
            ∙ ap (drop_lower target) (append_assoc front (e ∷ ahead) (entries_of bs))
            ∙ drop_lower-append front (e ∷ (ahead ++ entries_of bs)) lower
            ∙ drop_lower_ge e (ahead ++ entries_of bs) ge))
          (record {
            valid_is = refl;
            reader_is = rd;
            front = front;
            ahead = ahead;
            later = bs;
            block = same;
            place = refl;
            rest = refl;
            stores = st;
          })

    -- The loop over the blocks from `i` on.
    pub seek_from-Leads :
        (rounds i : ℕ) (it : Iterator) (d : List IndexEntry) (bs : List (List BlockEntry))
        → it.reader ≡ some r
        → drop i r.index_entries ≡ d
        → rounds ≡ length d
        → Stores r d bs
        → Leads r (seek_from rounds r target i it) (drop_lower target (entries_of bs))
    unfolding seek_from drop_lower
    seek_from-Leads zero i it [] [] rd de le st = (stop none it, refl, refl)
    seek_from-Leads zero i it [] (b ∷ bs) rd de le st = absurd st
    seek_from-Leads zero i it (x ∷ xs) bs rd de le st = absurd (omega (arith, le))
    seek_from-Leads (suc rounds) i it [] bs rd de le st = absurd (omega (arith, le))
    seek_from-Leads (suc rounds) i it (x ∷ xs) [] rd de le st = absurd st
    seek_from-Leads (suc rounds) i it (x ∷ xs) (b ∷ bs) rd de le (l, st) =
        let (_, _, after) = index-drop {E = SstError} i r.index_entries x xs de in
        let st' : Stores r (drop (i + 1) r.index_entries) bs =
          subst (λ (t : List IndexEntry). Stores r t bs) (sym after) st in
        choose rounds i it b bs rd (seek_from-step rounds i it b (load-Loads r i x xs b de l)) st'
          (seek_from-Leads rounds (i + 1) it xs bs rd after (omega (arith, le)) st)
          (find_entry-Finds b 0)
      where
        choose :
            (rounds i : ℕ) (it : Iterator) (b : List BlockEntry) (bs : List (List BlockEntry))
            → it.reader ≡ some r
            → seek_from (suc rounds) r target i it
              ≡ after_block rounds i it b (find_entry target b 0)
            → Stores r (drop (i + 1) r.index_entries) bs
            → Leads r (seek_from rounds r target (i + 1) it) (drop_lower target (entries_of bs))
            → Finds b 0
            → Leads r
                (seek_from (suc rounds) r target i it)
                (drop_lower target (b ++ entries_of bs))
        choose rounds i it b bs rd step st (it', run, s) (inl (none_here, lower)) = (
          it',
          step ∙ ap (after_block rounds i it b) none_here ∙ run,
          subst (Stands r it') (sym (drop_lower-append b (entries_of bs) lower)) s,
        )
        choose rounds i it b bs rd step st rest (inr (front, e, ahead, here, same, lower, ge)) = (
          at i b (length front) it,
          step ∙ ap (after_block rounds i it b) (here ∙ ap some (omega arith)),
          stops_at i it b bs front e ahead rd same lower ge st,
        )
