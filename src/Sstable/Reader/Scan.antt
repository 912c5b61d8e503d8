-- ===== src/Sstable/Reader/Scan.antt =====
-- Scanning entries in key order: where the versions of one user key can stand.
use beachdb.Prelude.{
  ℕ, ◌≡◌, ◌≢◌, refl, sym, ap, ◌∙◌, arith, Ordering, false, List, [], ◌∷◌, ◌++◌, Bytes, All, leb,
  Bool-cases, inl, inr,
}
use beachdb.Coding.{IsU64}
use beachdb.Keys.{InternalKey, compare_keys, compare_bytes}
use beachdb.Keys.Order.{compare_bytes_refl, eq_of_compare_bytes}
use beachdb.Record.{bytes_equal}
use beachdb.Record.Codec.{eq_of_bytes_equal, bytes_equal_refl}
use beachdb.Sstable.Block.{BlockEntry}
use beachdb.Sstable.Reader.{
  Scanned, value_at, tombstone, absent, too_new, seen, visible, scan_block, max_lookup_key,
}

-- What two runs of entries say together.
abbrev pub combine : Scanned → Scanned → Scanned
combine absent y = y
combine too_new y = seen y
combine tombstone y = tombstone
combine (value_at v) y = value_at v

seen-combine : (x y : Scanned) → seen (combine x y) ≡ combine (seen x) y
seen-combine absent y = refl
seen-combine too_new absent = refl
seen-combine too_new too_new = refl
seen-combine too_new tombstone = refl
seen-combine too_new (value_at v) = refl
seen-combine tombstone y = refl
seen-combine (value_at v) y = refl

combine-visible : (e : BlockEntry) (y : Scanned) → combine (visible e) y ≡ visible e
combine-visible e y = ground arith

module _ (user_key : Bytes) (seqno : ℕ) where
  pub scan_block-append :
      (es fs : List BlockEntry)
      → scan_block (es ++ fs) user_key seqno
        ≡ combine (scan_block es user_key seqno) (scan_block fs user_key seqno)
  unfolding scan_block
  scan_block-append [] fs = refl
  scan_block-append (e ∷ es) fs = elim (Bool-cases (bytes_equal e.key.user_key user_key)) [
    | inr other ↦ rw other (scan_block-append es fs)
    | inl same ↦ elim (Bool-cases (leb e.key.seqno seqno)) [
      | inl old ↦ rw (same, old) (sym (combine-visible e (scan_block fs user_key seqno)))
      | inr new ↦
          rw (same, new)
            (ap seen (scan_block-append es fs)
              ∙ seen-combine (scan_block es user_key seqno) (scan_block fs user_key seqno))
    ]
  ]

  abbrev pub IsOther : BlockEntry → Type 0
  IsOther e = bytes_equal e.key.user_key user_key ≡ false

  pub scan_block_other :
      (es : List BlockEntry) → All IsOther es → scan_block es user_key seqno ≡ absent
  unfolding scan_block
  scan_block_other [] h = refl
  scan_block_other (e ∷ es) (h, hs) = rw h (scan_block_other es hs)

  seen-ne-absent : (x : Scanned) → seen x ≢ absent
  seen-ne-absent absent p = cc
  seen-ne-absent too_new p = cc
  seen-ne-absent tombstone p = cc
  seen-ne-absent (value_at v) p = cc

  visible-ne-absent : (e : BlockEntry) → visible e ≢ absent
  visible-ne-absent e p = ground arith

  pub IsOther-of_absent :
      (es : List BlockEntry) → scan_block es user_key seqno ≡ absent → All IsOther es
  IsOther-of_absent [] h = tt
  IsOther-of_absent (e ∷ es) h = elim (Bool-cases (bytes_equal e.key.user_key user_key)) [
    | inr other ↦ (other, IsOther-of_absent es (unfold scan_block in rw other at h))
    | inl same ↦ elim (Bool-cases (leb e.key.seqno seqno)) [
      | inl old ↦ absurd (visible-ne-absent e (unfold scan_block in rw (same, old) at h))
      | inr new ↦
          absurd (
            seen-ne-absent (scan_block es user_key seqno)
              (unfold scan_block in rw (same, new) at h))
    ]
  ]

abbrev pub KeyLt : InternalKey → InternalKey → Type 0
KeyLt a b = compare_keys a b ≡ Ordering.lt

-- Strictly ascending keys.
abbrev pub IsAscending : List BlockEntry → Type 0
IsAscending [] = Unit
IsAscending (e ∷ es) = All (λ x. KeyLt e.key x.key) es × IsAscending es

-- A key before the synthetic key of a user key is no version of it.
pub other_of_lt :
    (k : InternalKey) (user_key : Bytes)
    → IsU64 k.seqno
    → KeyLt k (max_lookup_key user_key)
    → bytes_equal k.user_key user_key ≡ false
other_of_lt k user_key small lt = elim (Bool-cases (bytes_equal k.user_key user_key)) [
  | inr other ↦ other
  | inl same ↦
      let eq : compare_bytes k.user_key user_key ≡ Ordering.eq =
        ap (compare_bytes k.user_key) (sym (eq_of_bytes_equal k.user_key user_key same))
        ∙ compare_bytes_refl k.user_key in
      absurd (unfold compare_keys max_lookup_key in ground (arith, eq, lt))
]

not_equal : (a b : Bytes) → bytes_equal a b ≡ false → a ≢ b
not_equal a b h e = cc (h, bytes_equal_refl b, ap (λ (t : Bytes). bytes_equal t b) e)

contradiction :
    (l x : InternalKey) (user_key : Bytes)
    → compare_keys l (max_lookup_key user_key) ≢ Ordering.lt
    → bytes_equal l.user_key user_key ≡ false
    → x.user_key ≡ user_key
    → KeyLt l x
    → ⊥
unfolding compare_keys max_lookup_key
contradiction l x user_key ge other same lt =
    let lt' : compare_bytes l.user_key user_key ≢ Ordering.eq =
      λ e. not_equal l.user_key user_key other (eq_of_compare_bytes l.user_key user_key e) in
    let here : compare_bytes l.user_key x.user_key ≡ compare_bytes l.user_key user_key =
      ap (compare_bytes l.user_key) same in
    ground (arith, ge, lt', here, lt)

-- Behind a key that is not before the synthetic key and is no version itself, there is no version.
pub other_behind :
    (l x : InternalKey) (user_key : Bytes)
    → compare_keys l (max_lookup_key user_key) ≢ Ordering.lt
    → bytes_equal l.user_key user_key ≡ false
    → KeyLt l x
    → bytes_equal x.user_key user_key ≡ false
other_behind l x user_key ge other lt = elim (Bool-cases (bytes_equal x.user_key user_key)) [
  | inr out ↦ out
  | inl same ↦
      absurd (contradiction l x user_key ge other (eq_of_bytes_equal x.user_key user_key same) lt)
]
