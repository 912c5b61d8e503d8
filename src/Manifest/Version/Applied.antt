-- ===== src/Manifest/Version/Applied.antt =====
-- What `apply` leaves at each level.
use mathlib.Core.List.{Perm}
use mathlib.Core.List.Perm
use beachdb.Prelude.{
  ℕ, suc, ◌≡◌, refl, sym, ap, ◌∙◌, arith, Bool, true, false, List, [], ◌∷◌, ◌++◌, ◌==◌,
  if◌then◌else◌, append-nil, inl, inr, Bool-cases, ==_iff, subst,
}
use beachdb.Keys.{compare_keys}
use beachdb.Manifest.Edit.{FileMetadata, DeletedFile, VersionEdit}
use beachdb.Manifest.Version.{
  Version, insert_file, contains, touch, touch_deletions, touch_additions, sort_files,
  sort_files_at, sort_touched, apply, apply_deletions, apply_additions, files_at,
}
use beachdb.Manifest.Version.Sorted.{
  IsSorted, sort_files-IsSorted, Ordering-cases, insert_file_gt, insert_file_le,
}
use beachdb.Manifest.Version.Survivors.{survivors, deleted_at-survivors}
use beachdb.Manifest.Version.Files.{
  Levels, level_of, deleted_at, added_at, level_of-modify_at, level_of-apply_deletions,
  level_of-apply_additions,
}

insert_file-perm : (a : FileMetadata) (bs : List FileMetadata) → Perm (insert_file a bs) (a ∷ bs)
insert_file-perm a [] = unfold insert_file in Perm.refl (a ∷ [])
insert_file-perm a (b ∷ bs) = elim (Ordering-cases (compare_keys a.smallest_key b.smallest_key)) [
  | inl e ↦
      rw (insert_file_gt a b bs e)
        (Perm.trans (Perm.cons b (insert_file-perm a bs)) (Perm.swap a b bs))
  | inr e ↦ rw (insert_file_le a b bs e) (Perm.refl (a ∷ b ∷ bs))
]

pub sort_files-perm : (as' : List FileMetadata) → Perm (sort_files as') as'
unfolding sort_files
sort_files-perm [] = Perm.refl []
sort_files-perm (a ∷ as') =
    Perm.trans (insert_file-perm a (sort_files as')) (Perm.cons a (sort_files-perm as'))

-- One level through a sort of level `l`.
sort_one :
    (l m : ℕ) (files : Levels)
    → level_of (if l == 0 then files else sort_files_at l files) m ≡ (
        if l == 0
        then level_of files m
        else if l == m
        then sort_files (level_of files m)
        else level_of files m)
sort_one l m files = elim (Bool-cases (l == 0)) [
  | inl e ↦ rw e refl
  | inr e ↦
      rw e (
        unfold sort_files_at in level_of-modify_at sort_files l m files (unfold sort_files in refl))
]

sort_touched-perm :
    (levels : List ℕ) (m : ℕ) (files : Levels)
    → Perm (level_of (sort_touched levels files) m) (level_of files m)
unfolding sort_touched
sort_touched-perm [] m files = Perm.refl (level_of files m)
sort_touched-perm (l ∷ ls) m files =
    Perm.trans (sort_touched-perm ls m (if l == 0 then files else sort_files_at l files)) (
      rw (sort_one l m files) (elim (Bool-cases (l == 0)) [
        | inl e ↦ rw e (Perm.refl (level_of files m))
        | inr e ↦ elim (Bool-cases (l == m)) [
          | inl same ↦ rw (e, same) (sort_files-perm (level_of files m))
          | inr other ↦ rw (e, other) (Perm.refl (level_of files m))
        ]
      ]))

sort_touched_zero :
    (levels : List ℕ) (files : Levels) → level_of (sort_touched levels files) 0 ≡ level_of files 0
unfolding sort_touched
sort_touched_zero [] files = refl
sort_touched_zero (l ∷ ls) files =
    sort_touched_zero ls (if l == 0 then files else sort_files_at l files)
    ∙ sort_one l 0 files
    ∙ ground arith

sort_touched-keeps :
    (levels : List ℕ) (m : ℕ) (files : Levels)
    → IsSorted (level_of files m)
    → IsSorted (level_of (sort_touched levels files) m)
unfolding sort_touched
sort_touched-keeps [] m files h = h
sort_touched-keeps (l ∷ ls) m files h =
    sort_touched-keeps ls m (if l == 0 then files else sort_files_at l files) (
      rw (sort_one l m files) (elim (Bool-cases (l == 0)) [
        | inl e ↦ rw e h
        | inr e ↦ elim (Bool-cases (l == m)) [
          | inl same ↦ rw (e, same) (sort_files-IsSorted (level_of files m))
          | inr other ↦ rw (e, other) h
        ]
      ]))

sort_touched-IsSorted :
    (levels : List ℕ) (m : ℕ) (files : Levels)
    → contains (suc m) levels ≡ true
    → IsSorted (level_of (sort_touched levels files) (suc m))
unfolding sort_touched contains
sort_touched-IsSorted [] m files h = cc
sort_touched-IsSorted (l ∷ ls) m files h = elim (Bool-cases (l == suc m)) [
  | inl same ↦
      let big : (l == 0) ≡ false = ground (arith, (==_iff l (suc m)).0 same) in
      sort_touched-keeps ls (suc m) (if l == 0 then files else sort_files_at l files)
        (rw (sort_one l (suc m) files, big, same) (sort_files-IsSorted (level_of files (suc m))))
  | inr other ↦
      sort_touched-IsSorted ls m (if l == 0 then files else sort_files_at l files)
        (ground (arith, other, h))
]

true_ne_false : {b : Bool} → b ≡ true → b ≡ false → ⊥
true_ne_false p q = cc

contains-touch :
    (n m : ℕ) (ms : List ℕ)
    → contains m (touch n ms) ≡ false
    → (contains m ms ≡ false) × ((n == m) ≡ false)
unfolding touch
contains-touch n m ms h = elim (Bool-cases (contains n ms)) [
  | inl there ↦
      let out : contains m ms ≡ false = rw there at h in
      (
        out,
        elim (Bool-cases (n == m)) [
          | inl same ↦ absurd (
              true_ne_false (subst (λ (k : ℕ). contains k ms ≡ true) ((==_iff n m).0 same) there)
                out)
          | inr other ↦ other
        ],
      )
  | inr new ↦
      let out : contains m (n ∷ ms) ≡ false = rw new at h in
      unfold contains in (ground arith, ground arith)
]

untouched_deletions :
    (ds : List DeletedFile) (m : ℕ) (touched : List ℕ) (files : List FileMetadata)
    → contains m (touch_deletions ds touched) ≡ false
    → (contains m touched ≡ false) × (deleted_at m ds files ≡ files)
unfolding touch_deletions
untouched_deletions [] m touched files h = (h, refl)
untouched_deletions (d ∷ ds) m touched files h =
    let (rest, same) = untouched_deletions ds m (touch d.level touched) files h in
    let (out, other) = contains-touch d.level m touched rest in (out, rw other same)

untouched_additions :
    (as' : List FileMetadata) (m : ℕ) (touched : List ℕ)
    → contains m (touch_additions as' touched) ≡ false
    → (contains m touched ≡ false) × (added_at m as' ≡ [])
unfolding touch_additions
untouched_additions [] m touched h = (h, refl)
untouched_additions (a ∷ as') m touched h =
    let (rest, none_added) = untouched_additions as' m (touch a.level touched) h in
    let (out, other) = contains-touch a.level m touched rest in (out, rw other none_added)

module _ (v : Version) (e : VersionEdit) where
  applied : Levels
  applied = apply_additions (apply_deletions v.files e.deleted_files) e.added_files

  touched : List ℕ
  touched = touch_additions e.added_files (touch_deletions e.deleted_files [])

  level_of-applied :
      (m : ℕ)
      → level_of applied m ≡ deleted_at m e.deleted_files (files_at v m) ++ added_at m e.added_files
  unfolding applied files_at
  level_of-applied m =
      level_of-apply_additions e.added_files m (apply_deletions v.files e.deleted_files)
      ∙ ap (λ (fs : List FileMetadata). fs ++ added_at m e.added_files)
          (level_of-apply_deletions e.deleted_files m v.files)

  -- At any level the files after an edit are, as often and in some order, the old files that
  -- survive and those that the edit adds; a file survives unless, going through the level's files
  -- in order, a deletion of its level and id is left that has not taken an earlier file.
  pub apply-perm :
      (m : ℕ)
      → Perm
          (files_at (apply v e) m)
          (survivors m e.deleted_files (files_at v m) ++ added_at m e.added_files)
  apply-perm m =
      rw (← deleted_at-survivors m e.deleted_files (files_at v m), ← level_of-applied m)
        (unfold apply files_at applied touched in sort_touched-perm touched m applied)

  -- At level 0 the files after an edit are those that the deletions leave, in their order, and
  -- behind them those that the edit adds, in its order.
  pub apply_zero :
      files_at (apply v e) 0
      ≡ deleted_at 0 e.deleted_files (files_at v 0) ++ added_at 0 e.added_files
  apply_zero =
      rw (← level_of-applied 0)
        (unfold apply files_at applied touched in sort_touched_zero touched applied)

  untouched : (m : ℕ) → contains m touched ≡ false → level_of applied m ≡ files_at v m
  unfolding touched
  untouched m h =
      let (rest, none_added) = untouched_additions e.added_files m _ h in
      let (_, same) = untouched_deletions e.deleted_files m [] (files_at v m) rest in
      level_of-applied m ∙ rw (none_added, same) (append-nil (files_at v m))

-- Every level above 0 is sorted by smallest key.
abbrev pub LevelsAreSorted : Version → Type 0
LevelsAreSorted v = (m : ℕ) → IsSorted (files_at v (suc m))

-- If every level above 0 is sorted by smallest key, then an edit leaves every level above 0 sorted
-- by smallest key.
pub apply-LevelsAreSorted :
    (v : Version) (e : VersionEdit) → LevelsAreSorted v → LevelsAreSorted (apply v e)
apply-LevelsAreSorted v e sorted m = elim (Bool-cases (contains (suc m) (touched v e))) [
  | inl there ↦
      unfold apply files_at applied touched in
      sort_touched-IsSorted (touched v e) m (applied v e) there
  | inr out ↦
      unfold apply files_at applied touched in
      sort_touched-keeps (touched v e) (suc m) (applied v e)
        (subst IsSorted (sym (untouched v e (suc m) out)) (sorted m))
]
