-- ===== src/Manifest/Version/Sorted.antt =====
-- The levels above 0 stay sorted.
use beachdb.Prelude.{◌≡◌, ◌≢◌, refl, arith, Ordering, List, [], ◌∷◌, All, ◌⊎◌, inl, inr}
use beachdb.Keys.{compare_keys}
use beachdb.Keys.Order.{KeyLe, KeyLe-trans, KeyLe-total}
use beachdb.Manifest.Edit.{FileMetadata}
use beachdb.Manifest.Version.{insert_file, sort_files}

abbrev pub FileLe : FileMetadata → FileMetadata → Type 0
FileLe a b = KeyLe a.smallest_key b.smallest_key

-- By smallest key, ascending.
abbrev pub IsSorted : List FileMetadata → Type 0
IsSorted [] = Unit
IsSorted (a ∷ as') = All (FileLe a) as' × IsSorted as'

All-FileLe-trans :
    (a b : FileMetadata) (cs : List FileMetadata)
    → FileLe a b
    → All (FileLe b) cs
    → All (FileLe a) cs
All-FileLe-trans a b [] h k = tt
All-FileLe-trans a b (c ∷ cs) h (k, ks) =
    (KeyLe-trans a.smallest_key b.smallest_key c.smallest_key h k, All-FileLe-trans a b cs h ks)

pub Ordering-cases : (o : Ordering) → (o ≡ Ordering.gt) ⊎ (o ≢ Ordering.gt)
Ordering-cases Ordering.gt = inl refl
Ordering-cases Ordering.lt = inr (λ e. cc)
Ordering-cases Ordering.eq = inr (λ e. cc)

module _ (a b : FileMetadata) (bs : List FileMetadata) where
  pub insert_file_gt :
      compare_keys a.smallest_key b.smallest_key ≡ Ordering.gt
      → insert_file a (b ∷ bs) ≡ b ∷ insert_file a bs
  unfolding insert_file
  insert_file_gt e = rw (e, insert_file)

  pub insert_file_le :
      compare_keys a.smallest_key b.smallest_key ≢ Ordering.gt
      → insert_file a (b ∷ bs) ≡ a ∷ (b ∷ bs)
  unfolding insert_file
  insert_file_le h = ground (arith, h)

All-insert_file :
    (P : FileMetadata → Type 0) (a : FileMetadata) (bs : List FileMetadata)
    → P a
    → All P bs
    → All P (insert_file a bs)
All-insert_file P a [] h k = unfold insert_file in (h, tt)
All-insert_file P a (b ∷ bs) h (k, ks) =
    elim (Ordering-cases (compare_keys a.smallest_key b.smallest_key)) [
      | inl e ↦ rw (insert_file_gt a b bs e) (k, All-insert_file P a bs h ks)
      | inr e ↦ rw (insert_file_le a b bs e) (h, (k, ks))
    ]

insert_file-IsSorted :
    (a : FileMetadata) (bs : List FileMetadata) → IsSorted bs → IsSorted (insert_file a bs)
insert_file-IsSorted a [] s = unfold insert_file in (tt, tt)
insert_file-IsSorted a (b ∷ bs) (h, s) =
    elim (Ordering-cases (compare_keys a.smallest_key b.smallest_key)) [
      | inl e ↦ rw (insert_file_gt a b bs e) (
        All-insert_file (FileLe b) a bs (KeyLe-total a.smallest_key b.smallest_key e) h,
        insert_file-IsSorted a bs s,
      )
      | inr e ↦ rw (insert_file_le a b bs e) ((e, All-FileLe-trans a b bs e h), (h, s))
    ]

pub sort_files-IsSorted : (as' : List FileMetadata) → IsSorted (sort_files as')
unfolding sort_files
sort_files-IsSorted [] = tt
sort_files-IsSorted (a ∷ as') = insert_file-IsSorted a (sort_files as') (sort_files-IsSorted as')
