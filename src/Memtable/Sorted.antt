-- ===== src/Memtable/Sorted.antt =====
-- Lookups in entries that are in key order.
use beachdb.Prelude.{
  ℕ, ◌≡◌, ◌≢◌, refl, sym, ap, ◌∙◌, arith, Ordering, true, false, List, [], ◌∷◌, Bytes, All, leb,
  Bool-cases, inl, inr, ◌≤◌, ◌⊎◌,
}
use beachdb.Keys.{InternalKey, compare_keys, compare_bytes}
use beachdb.Keys.Order.{
  KeyLe, KeyLe-trans, compare_bytes_refl, eq_of_compare_bytes, compare_keys-swap, swap,
}
use beachdb.Record.{bytes_equal}
use beachdb.Record.Codec.{eq_of_bytes_equal, bytes_equal_refl}
use beachdb.Sstable.Block.{BlockEntry}
use beachdb.Sstable.Reader.{
  Scanned, value_at, tombstone, absent, too_new, seen, visible, scan_block,
}
use beachdb.Sstable.Reader.Scan.{scan_block_other}
use beachdb.Memtable.{Lookup, missing, deleted, found, insert_entry, search_key, check_node, lookup}

abbrev pub IsSorted : List BlockEntry → Type 0
IsSorted [] = Unit
IsSorted (e ∷ es) = All (λ x. KeyLe e.key x.key) es × IsSorted es

pub Lt-cases : (o : Ordering) → (o ≡ Ordering.lt) ⊎ (o ≢ Ordering.lt)
Lt-cases Ordering.lt = inl refl
Lt-cases Ordering.eq = inr (λ e. cc)
Lt-cases Ordering.gt = inr (λ e. cc)

pub match_ge :
    {A : Type 0} (o : Ordering) (x y : A) → o ≢ Ordering.lt → elim o [ Ordering.lt ↦ x | _ ↦ y ] ≡ y
match_ge Ordering.lt x y h = absurd (h refl)
match_ge Ordering.eq x y h = refl
match_ge Ordering.gt x y h = refl

module _ (e x : BlockEntry) (xs : List BlockEntry) where
  pub insert_entry_lt :
      compare_keys x.key e.key ≡ Ordering.lt → insert_entry e (x ∷ xs) ≡ x ∷ insert_entry e xs
  unfolding insert_entry
  insert_entry_lt h = rw (insert_entry, h) refl

  pub insert_entry_ge :
      compare_keys x.key e.key ≢ Ordering.lt → insert_entry e (x ∷ xs) ≡ e ∷ x ∷ xs
  unfolding insert_entry
  insert_entry_ge h = match_ge (compare_keys x.key e.key) (x ∷ insert_entry e xs) (e ∷ x ∷ xs) h

module _ (user_key : Bytes) (seqno : ℕ) (x : BlockEntry) (xs : List BlockEntry) where
  pub lookup_lt :
      compare_keys x.key (search_key user_key seqno) ≡ Ordering.lt
      → lookup (x ∷ xs) user_key seqno ≡ lookup xs user_key seqno
  unfolding lookup
  lookup_lt h = rw (lookup, h) refl

  pub lookup_ge :
      compare_keys x.key (search_key user_key seqno) ≢ Ordering.lt
      → lookup (x ∷ xs) user_key seqno ≡ check_node x user_key seqno
  unfolding lookup
  lookup_ge h =
      match_ge (compare_keys x.key (search_key user_key seqno)) (lookup xs user_key seqno)
        (check_node x user_key seqno) h

All-KeyLe-insert :
    (k : InternalKey) (e : BlockEntry) (xs : List BlockEntry)
    → KeyLe k e.key
    → All (λ x. KeyLe k x.key) xs
    → All (λ x. KeyLe k x.key) (insert_entry e xs)
All-KeyLe-insert k e [] le h = unfold insert_entry in (le, tt)
All-KeyLe-insert k e (x ∷ xs) le (h, hs) = elim (Lt-cases (compare_keys x.key e.key)) [
  | inl lt ↦ rw (insert_entry_lt e x xs lt) (h, All-KeyLe-insert k e xs le hs)
  | inr ge ↦ rw (insert_entry_ge e x xs ge) (le, (h, hs))
]

pub KeyLe-of_lt : (a b : InternalKey) → compare_keys a b ≡ Ordering.lt → KeyLe a b
KeyLe-of_lt a b lt gt = cc

pub KeyLe-of_ge : (a b : InternalKey) → compare_keys a b ≢ Ordering.lt → KeyLe b a
KeyLe-of_ge a b ge gt = absurd (ge (flip (compare_keys a b) (sym (compare_keys-swap a b) ∙ gt)))
  where
    flip : (o : Ordering) → swap o ≡ Ordering.gt → o ≡ Ordering.lt
    flip Ordering.lt p = refl
    flip Ordering.eq p = cc
    flip Ordering.gt p = cc

All-KeyLe-trans :
    (a b : InternalKey) (xs : List BlockEntry)
    → KeyLe a b
    → All (λ x. KeyLe b x.key) xs
    → All (λ x. KeyLe a x.key) xs
All-KeyLe-trans a b [] le h = tt
All-KeyLe-trans a b (x ∷ xs) le (h, hs) = (KeyLe-trans a b x.key le h, All-KeyLe-trans a b xs le hs)

abbrev pub of_scanned : Scanned → Lookup
of_scanned absent = missing
of_scanned too_new = missing
of_scanned tombstone = deleted
of_scanned (value_at v) = found v

of_scanned-seen : (x : Scanned) → of_scanned (seen x) ≡ of_scanned x
of_scanned-seen absent = refl
of_scanned-seen too_new = refl
of_scanned-seen tombstone = refl
of_scanned-seen (value_at v) = refl

-- Inserting an entry keeps the key order.
pub insert_entry-IsSorted :
    (e : BlockEntry) (xs : List BlockEntry) → IsSorted xs → IsSorted (insert_entry e xs)
insert_entry-IsSorted e [] h = unfold insert_entry in (tt, tt)
insert_entry-IsSorted e (x ∷ xs) (h, hs) = elim (Lt-cases (compare_keys x.key e.key)) [
  | inl lt ↦
      rw (insert_entry_lt e x xs lt)
        (All-KeyLe-insert x.key e xs (KeyLe-of_lt x.key e.key lt) h, insert_entry-IsSorted e xs hs)
  | inr ge ↦
      let le = KeyLe-of_ge x.key e.key ge in
      rw (insert_entry_ge e x xs ge) ((le, All-KeyLe-trans e.key x.key xs le h), (h, hs))
]

module _ (user_key : Bytes) (seqno : ℕ) where
  same_bytes :
      (k : InternalKey)
      → bytes_equal k.user_key user_key ≡ true
      → compare_bytes k.user_key user_key ≡ Ordering.eq
  same_bytes k same =
      ap (compare_bytes k.user_key) (sym (eq_of_bytes_equal k.user_key user_key same))
      ∙ compare_bytes_refl k.user_key

  -- A version of the user key that is before the search key is newer than the sequence number.
  too_new_before :
      (k : InternalKey)
      → compare_keys k (search_key user_key seqno) ≡ Ordering.lt
      → bytes_equal k.user_key user_key ≡ true
      → leb k.seqno seqno ≡ false
  unfolding compare_keys
  too_new_before k lt same = ground (arith, lt, same_bytes k same)

  visible_from :
      (k : InternalKey)
      → compare_keys k (search_key user_key seqno) ≢ Ordering.lt
      → bytes_equal k.user_key user_key ≡ true
      → k.seqno ≤ seqno
  unfolding compare_keys
  visible_from k ge same = ground (arith, ge, same_bytes k same)

  other_bytes :
      (k : InternalKey)
      → bytes_equal k.user_key user_key ≡ false
      → compare_bytes k.user_key user_key ≢ Ordering.eq
  other_bytes k other e = cc (
    other,
    bytes_equal_refl user_key,
    ap (λ (t : Bytes). bytes_equal t user_key) (eq_of_compare_bytes k.user_key user_key e),
  )

  behind_other :
      (a x : InternalKey)
      → compare_keys a (search_key user_key seqno) ≢ Ordering.lt
      → bytes_equal a.user_key user_key ≡ false
      → KeyLe a x
      → bytes_equal x.user_key user_key ≡ false
  unfolding compare_keys
  behind_other a x ge other le = elim (Bool-cases (bytes_equal x.user_key user_key)) [
    | inr out ↦ out
    | inl same ↦
        let here : compare_bytes a.user_key x.user_key ≡ compare_bytes a.user_key user_key =
          ap (compare_bytes a.user_key) (eq_of_bytes_equal x.user_key user_key same) in
        absurd (ground (arith, ge, other_bytes a other, here, le))
  ]

  All-behind_other :
      (a : InternalKey) (xs : List BlockEntry)
      → compare_keys a (search_key user_key seqno) ≢ Ordering.lt
      → bytes_equal a.user_key user_key ≡ false
      → All (λ x. KeyLe a x.key) xs
      → All (λ x. bytes_equal x.key.user_key user_key ≡ false) xs
  All-behind_other a [] ge other h = tt
  All-behind_other a (x ∷ xs) ge other (h, hs) =
      (behind_other a x.key ge other h, All-behind_other a xs ge other hs)

  check_node-visible :
      (x : BlockEntry)
      → bytes_equal x.key.user_key user_key ≡ true
      → leb x.key.seqno seqno ≡ true
      → check_node x user_key seqno ≡ of_scanned (visible x)
  unfolding check_node
  check_node-visible x same old = ground (arith, same, old)

  skipped :
      (x : BlockEntry) (xs : List BlockEntry)
      → compare_keys x.key (search_key user_key seqno) ≡ Ordering.lt
      → of_scanned (scan_block xs user_key seqno) ≡ of_scanned (scan_block (x ∷ xs) user_key seqno)
  unfolding scan_block
  skipped x xs lt = elim (Bool-cases (bytes_equal x.key.user_key user_key)) [
    | inr other ↦ rw other refl
    | inl same ↦
        rw (same, too_new_before x.key lt same)
          (sym (of_scanned-seen (scan_block xs user_key seqno)))
  ]

  found_here :
      (x : BlockEntry) (xs : List BlockEntry)
      → compare_keys x.key (search_key user_key seqno) ≢ Ordering.lt
      → All (λ y. KeyLe x.key y.key) xs
      → check_node x user_key seqno ≡ of_scanned (scan_block (x ∷ xs) user_key seqno)
  unfolding scan_block check_node
  found_here x xs ge h = elim (Bool-cases (bytes_equal x.key.user_key user_key)) [
    | inr other ↦
        rw (other, scan_block_other user_key seqno xs (All-behind_other x.key xs ge other h)) refl
    | inl same ↦
        let old : leb x.key.seqno seqno ≡ true = ground (arith, visible_from x.key ge same) in
        check_node-visible x same old ∙ rw (same, old) refl
  ]

  -- In entries in key order, the check of the first entry that is not before the search key gives
  -- what a scan for the first visible version of the user key gives.
  pub lookup-eq-scan :
      (es : List BlockEntry)
      → IsSorted es
      → lookup es user_key seqno ≡ of_scanned (scan_block es user_key seqno)
  lookup-eq-scan [] h = unfold lookup scan_block in refl
  lookup-eq-scan (x ∷ xs) (h, hs) =
      elim (Lt-cases (compare_keys x.key (search_key user_key seqno))) [
        | inl lt ↦ lookup_lt user_key seqno x xs lt ∙ lookup-eq-scan xs hs ∙ skipped x xs lt
        | inr ge ↦ lookup_ge user_key seqno x xs ge ∙ found_here x xs ge h
      ]
