-- ===== src/Sstable/Reader/Lookup.antt =====
-- Reader.Get against a scan of every entry of the table.
use beachdb.Prelude.{
  ℕ, zero, suc, ◌≤◌, ◌<◌, ◌≡◌, refl, sym, ap, ◌∙◌, arith, false, true, List, [], ◌∷◌, ◌++◌, Bytes,
  All, All-left, All-right, subst, ◌≢◌, Ordering, length, drop,
}
use beachdb.Coding.{IsU64}
use beachdb.Keys.{InternalKey, compare_keys}
use beachdb.Keys.Order.{compare_keys_trans}
use beachdb.Record.{bytes_equal}
use beachdb.Sstable.Block.{BlockEntry}
use beachdb.Sstable.Index.{IndexEntry}
use beachdb.Sstable.Reader.{
  Reader, Scanned, absent, at_least, entry_at, seek_block, max_lookup_key, scan_block, get_from,
  get,
}
use beachdb.Sstable.Reader.Scan.{
  combine, scan_block-append, scan_block_other, KeyLt, IsAscending, other_of_lt,
}
use beachdb.Sstable.Reader.Blocks.{
  answer, entries_of, LastKey, Stores, All-LastKey, behind_last, IsAscending-right,
  get_from-eq-scan,
}
use beachdb.Sstable.Reader.Seek.{
  search_range-IsFirst, IsSortedIndex, lt_of_at_least, beyond_end, ge_of_at_least,
  at_least-IsMonotone,
}

behind_key :
    (r : Reader) (k : InternalKey) (es : List IndexEntry) (bs : List (List BlockEntry))
    → Stores r es bs
    → All (λ x. KeyLt k x.key) (entries_of bs)
    → All (λ e. KeyLt k e.last_key) es
behind_key r k [] bs st h = tt
behind_key r k (e ∷ es) [] st h = absurd st
behind_key r k (e ∷ es) (b ∷ bs) (l, st) h =
    let here = All-left (λ x. KeyLt k x.key) b (entries_of bs) h in
    let rest = All-right (λ x. KeyLt k x.key) b (entries_of bs) h in
    (All-LastKey (KeyLt k) b e.last_key here l.last, behind_key r k es bs st rest)

pub Stores-IsSortedIndex :
    (r : Reader) (es : List IndexEntry) (bs : List (List BlockEntry))
    → Stores r es bs
    → IsAscending (entries_of bs)
    → IsSortedIndex es
Stores-IsSortedIndex r [] bs st asc = tt
Stores-IsSortedIndex r (e ∷ es) [] st asc = absurd st
Stores-IsSortedIndex r (e ∷ es) (b ∷ bs) (l, st) asc = (
  behind_key r e.last_key es bs st (behind_last b (entries_of bs) e.last_key asc l.last),
  Stores-IsSortedIndex r es bs st (IsAscending-right b (entries_of bs) asc),
)

-- The keys of a block whose last key is before `bound` are all before it.
pub before_last :
    (bound k : InternalKey) (b rest : List BlockEntry)
    → IsAscending (b ++ rest)
    → LastKey b k
    → KeyLt k bound
    → All (λ x. KeyLt x.key bound) b
before_last bound k [] rest asc l lt = tt
before_last bound k (e ∷ []) rest asc l lt =
    (subst (λ (t : InternalKey). KeyLt t bound) (sym l) lt, tt)
before_last bound k (e ∷ (f ∷ es)) rest ((first, others), asc) l lt =
    let tail = before_last bound k (f ∷ es) rest asc l lt in
    let (next, _) = tail in (compare_keys_trans e.key f.key bound first next, tail)

module _ (user_key : Bytes) where
  All-IsOther :
      (b : List BlockEntry)
      → All (λ e. IsU64 e.key.seqno) b
      → All (λ x. KeyLt x.key (max_lookup_key user_key)) b
      → All (λ e. bytes_equal e.key.user_key user_key ≡ false) b
  All-IsOther [] u h = tt
  All-IsOther (e ∷ es) (u, us) (h, hs) = (other_of_lt e.key user_key u h, All-IsOther es us hs)

  module _ (r : Reader) (seqno : ℕ) where
    All-ge :
        (es : List IndexEntry)
        → ((k : ℕ) → at_least (max_lookup_key user_key) (entry_at es k) ≡ true)
        → All (λ e. compare_keys e.last_key (max_lookup_key user_key) ≢ Ordering.lt) es
    All-ge [] h = tt
    All-ge (e ∷ es) h = (
      ge_of_at_least (max_lookup_key user_key) e (unfold entry_at in h 0),
      All-ge es (λ k. unfold entry_at in h (suc k)),
    )

    get_from-skip :
        (n : ℕ) (es : List IndexEntry) (bs : List (List BlockEntry))
        → Stores r es bs
        → IsAscending (entries_of bs)
        → All (λ e. IsU64 e.key.seqno) (entries_of bs)
        → ((k : ℕ) → k < n → at_least (max_lookup_key user_key) (entry_at es k) ≡ false)
        → ((k : ℕ) → n ≤ k → at_least (max_lookup_key user_key) (entry_at es k) ≡ true)
        → get_from r (drop n es) user_key seqno ≡ answer (scan_block (entries_of bs) user_key seqno)
    get_from-skip zero es bs st asc u before from =
        get_from-eq-scan r user_key seqno es bs st asc (All-ge es (λ k. from k (omega arith)))
    get_from-skip (suc n) [] [] st asc u before from = unfold get_from scan_block in refl
    get_from-skip (suc n) [] (b ∷ bs) st asc u before from = absurd st
    get_from-skip (suc n) (e ∷ es) [] st asc u before from = absurd st
    get_from-skip (suc n) (e ∷ es) (b ∷ bs) (l, st) asc u before from =
        let lt =
          lt_of_at_least (max_lookup_key user_key) e (unfold entry_at in before 0 (omega arith)) in
        let here = All-left (λ e. IsU64 e.key.seqno) b (entries_of bs) u in
        let rest = All-right (λ e. IsU64 e.key.seqno) b (entries_of bs) u in
        let nowhere : scan_block b user_key seqno ≡ absent = scan_block_other user_key seqno b (
          All-IsOther b here
            (before_last (max_lookup_key user_key) e.last_key b (entries_of bs) asc l.last lt)) in
        get_from-skip n es bs st (IsAscending-right b (entries_of bs) asc) rest
          (λ k h. unfold entry_at in before (suc k) (omega arith))
          (λ k h. unfold entry_at in from (suc k) (omega arith))
        ∙ ap answer (
            sym (
              scan_block-append user_key seqno b (entries_of bs)
              ∙ ap (λ (t : Scanned). combine t (scan_block (entries_of bs) user_key seqno))
                  nowhere))

    -- On a table whose index entries each load the block they name, with the block's last key, and
    -- whose keys ascend strictly, with sequence numbers below 2^64, a lookup gives what a scan of
    -- all the entries gives: the first entry of the user key that is visible at the sequence
    -- number decides.
    pub get-eq-scan :
        (bs : List (List BlockEntry))
        → Stores r r.index_entries bs
        → IsAscending (entries_of bs)
        → All (λ e. IsU64 e.key.seqno) (entries_of bs)
        → get r user_key seqno ≡ answer (scan_block (entries_of bs) user_key seqno)
    unfolding get seek_block
    get-eq-scan bs st asc u =
        let es = r.index_entries in
        let first =
          search_range-IsFirst (λ i. at_least (max_lookup_key user_key) (entry_at es i))
            (at_least-IsMonotone (max_lookup_key user_key) es (Stores-IsSortedIndex r es bs st asc))
            (length es) 0 (length es) (omega arith) (omega arith) (λ k h. absurd (omega arith))
            (beyond_end (max_lookup_key user_key) es) in
        get_from-skip (seek_block es user_key) es bs st asc u first.before first.from
