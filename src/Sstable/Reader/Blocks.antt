-- ===== src/Sstable/Reader/Blocks.antt =====
-- The lookup loop over the blocks of a table, against a scan of all its entries.
use beachdb.Prelude.{
  ℕ, ◌≡◌, ◌≢◌, refl, sym, ap, ◌∙◌, Ordering, false, List, [], ◌∷◌, ◌++◌, Bytes, All, Result, ok,
  err, subst,
}
use beachdb.Keys.{InternalKey, compare_keys}
use beachdb.Record.{bytes_equal}
use beachdb.Sstable.Errors.{SstError, key_not_found, key_deleted}
use beachdb.Sstable.Block.{BlockEntry, decode_block_entries}
use beachdb.Sstable.Index.{IndexEntry}
use beachdb.Sstable.Reader.{
  Reader, read_block, Scanned, value_at, tombstone, absent, too_new, seen, scan_block, get_from,
  max_lookup_key,
}
use beachdb.Sstable.Reader.Scan.{
  combine, scan_block-append, scan_block_other, IsOther-of_absent, KeyLt, IsAscending, other_behind,
}

-- What a scan of every entry of the table answers.
abbrev pub answer : Scanned → Result SstError Bytes
answer absent = err key_not_found
answer too_new = err key_not_found
answer tombstone = err key_deleted
answer (value_at v) = ok v

answer-seen : (x : Scanned) → answer (seen x) ≡ answer x
answer-seen absent = refl
answer-seen too_new = refl
answer-seen tombstone = refl
answer-seen (value_at v) = refl

abbrev pub entries_of : List (List BlockEntry) → List BlockEntry
entries_of [] = []
entries_of (b ∷ bs) = b ++ entries_of bs

abbrev pub LastKey : List BlockEntry → InternalKey → Type 0
LastKey [] k = ⊥
LastKey (e ∷ []) k = e.key ≡ k
LastKey (e ∷ (f ∷ es)) k = LastKey (f ∷ es) k

-- The index entry names the block: its bytes decode to these entries, the last of which has its key.
pub record Loads (r : Reader) (e : IndexEntry) (block : List BlockEntry) : Type 0 where
  pub payload : Bytes
  pub reads : read_block r e.offset e.size ≡ ok payload
  pub decodes : decode_block_entries payload ≡ ok block
  pub last : LastKey block e.last_key

abbrev pub Stores : Reader → List IndexEntry → List (List BlockEntry) → Type 0
Stores r [] [] = Unit
Stores r [] (b ∷ bs) = ⊥
Stores r (e ∷ es) [] = ⊥
Stores r (e ∷ es) (b ∷ bs) = Loads r e b × Stores r es bs

module _ (P : InternalKey → Type 0) where
  pub All-LastKey :
      (b : List BlockEntry) (k : InternalKey) → All (λ e. P e.key) b → LastKey b k → P k
  All-LastKey [] k h l = absurd l
  All-LastKey (e ∷ []) k (h, hs) l = subst P l h
  All-LastKey (e ∷ (f ∷ es)) k (h, hs) l = All-LastKey (f ∷ es) k hs l

pub behind_last :
    (b rest : List BlockEntry) (k : InternalKey)
    → IsAscending (b ++ rest)
    → LastKey b k
    → All (λ x. KeyLt k x.key) rest
behind_last [] rest k h l = absurd l
behind_last (e ∷ []) rest k (h, hs) l =
    subst (λ (t : InternalKey). All (λ x. KeyLt t x.key) rest) l h
behind_last (e ∷ (f ∷ es)) rest k (h, hs) l = behind_last (f ∷ es) rest k hs l

pub IsAscending-right : (b rest : List BlockEntry) → IsAscending (b ++ rest) → IsAscending rest
IsAscending-right [] rest h = h
IsAscending-right (e ∷ es) rest (h, hs) = IsAscending-right es rest hs

All-other_behind :
    (l : InternalKey) (user_key : Bytes) (rest : List BlockEntry)
    → compare_keys l (max_lookup_key user_key) ≢ Ordering.lt
    → bytes_equal l.user_key user_key ≡ false
    → All (λ x. KeyLt l x.key) rest
    → All (λ x. bytes_equal x.key.user_key user_key ≡ false) rest
All-other_behind l user_key [] ge other h = tt
All-other_behind l user_key (x ∷ xs) ge other (h, hs) =
    (other_behind l x.key user_key ge other h, All-other_behind l user_key xs ge other hs)

module _ (r : Reader) (user_key : Bytes) (seqno : ℕ) where
  after_block : Scanned → List IndexEntry → Result SstError Bytes
  after_block x es = elim x [
    | absent ↦ err key_not_found
    | tombstone ↦ err key_deleted
    | value_at v ↦ ok v
    | too_new ↦ get_from r es user_key seqno
  ]

  after_block_lem :
      (x y : Scanned) (es : List IndexEntry)
      → (x ≡ absent → y ≡ absent)
      → get_from r es user_key seqno ≡ answer y
      → after_block x es ≡ answer (combine x y)
  unfolding after_block
  after_block_lem absent y es none_behind rest = rw (none_behind refl) refl
  after_block_lem tombstone y es none_behind rest = refl
  after_block_lem (value_at v) y es none_behind rest = refl
  after_block_lem too_new y es none_behind rest = rest ∙ sym (answer-seen y)

  get_from-step :
      (e : IndexEntry) (es : List IndexEntry) (b : List BlockEntry)
      → Loads r e b
      → get_from r (e ∷ es) user_key seqno ≡ after_block (scan_block b user_key seqno) es
  unfolding get_from after_block
  get_from-step e es b l = rw (l.reads, l.decodes) refl

  -- From the first block that is not before the user key on, the loop over the blocks answers what
  -- a scan of all their entries answers.
  pub get_from-eq-scan :
      (es : List IndexEntry) (bs : List (List BlockEntry))
      → Stores r es bs
      → IsAscending (entries_of bs)
      → All (λ e. compare_keys e.last_key (max_lookup_key user_key) ≢ Ordering.lt) es
      → get_from r es user_key seqno ≡ answer (scan_block (entries_of bs) user_key seqno)
  get_from-eq-scan [] [] st asc ge = unfold get_from scan_block in refl
  get_from-eq-scan [] (b ∷ bs) st asc ge = absurd st
  get_from-eq-scan (e ∷ es) [] st asc ge = absurd st
  get_from-eq-scan (e ∷ es) (b ∷ bs) (l, st) asc (g, gs) =
      get_from-step e es b l
      ∙ after_block_lem (scan_block b user_key seqno) (scan_block (entries_of bs) user_key seqno) es
          (λ nowhere. scan_block_other user_key seqno (entries_of bs) (
            All-other_behind e.last_key user_key (entries_of bs) g
              (All-LastKey (λ k. bytes_equal k.user_key user_key ≡ false) b e.last_key
                (IsOther-of_absent user_key seqno b nowhere) l.last)
              (behind_last b (entries_of bs) e.last_key asc l.last)))
          (get_from-eq-scan es bs st (IsAscending-right b (entries_of bs) asc) gs)
      ∙ ap answer (sym (scan_block-append user_key seqno b (entries_of bs)))
