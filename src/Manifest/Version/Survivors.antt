-- ===== src/Manifest/Version/Survivors.antt =====
-- internal/manifest/version.go: which files of a level an edit's deletions leave, file by file. A
-- deletion takes one file; a file goes if a deletion of its level and id is still to be spent.
use beachdb.Prelude.{
  ℕ, ◌≡◌, refl, sym, ap, ◌∙◌, arith, Bool, true, false, ◌||◌, ◌&&◌, List, [], ◌∷◌, ◌==◌,
  if◌then◌else◌, Bool-cases, inl, inr,
}
use beachdb.Manifest.Edit.{FileMetadata, DeletedFile}
use beachdb.Manifest.Version.{remove_file}
use beachdb.Manifest.Version.Files.{deleted_at}

abbrev pub takes : ℕ → ℕ → DeletedFile → Bool
takes level id d = d.level == level && d.file_id == id

abbrev pub is_deleted : ℕ → ℕ → List DeletedFile → Bool
is_deleted level id [] = false
is_deleted level id (d ∷ ds) = takes level id d || is_deleted level id ds

-- The deletions without the first one that takes a file of that level and id.
abbrev pub spend : ℕ → ℕ → List DeletedFile → List DeletedFile
spend level id [] = []
spend level id (d ∷ ds) = if takes level id d then ds else d ∷ spend level id ds

abbrev pub survivors : ℕ → List DeletedFile → List FileMetadata → List FileMetadata
survivors level ds [] = []
survivors level ds (f ∷ files) =
    let goes = survivors level (spend level f.file_id ds) files in
    let stays = survivors level ds files in
    if is_deleted level f.file_id ds then goes else f ∷ stays

survivors-none : (level : ℕ) (files : List FileMetadata) → survivors level [] files ≡ files
survivors-none level [] = refl
survivors-none level (f ∷ files) = ap (λ fs. f ∷ fs) (survivors-none level files)

survivors-remove_file :
    (level : ℕ) (d : DeletedFile) (ds : List DeletedFile) (files : List FileMetadata)
    → (d.level == level) ≡ true
    → survivors level (d ∷ ds) files ≡ survivors level ds (remove_file d.file_id files)
unfolding remove_file
survivors-remove_file level d ds [] e = refl
survivors-remove_file level d ds (f ∷ files) e = elim (Bool-cases (d.file_id == f.file_id)) [
  | inl same ↦ let back : (f.file_id == d.file_id) ≡ true = ground arith in rw (e, same, back) refl
  | inr other ↦
      let back : (f.file_id == d.file_id) ≡ false = ground arith in
      elim (Bool-cases (is_deleted level f.file_id ds)) [
        | inl gone ↦
            rw (e, other, back, gone)
              (survivors-remove_file level d (spend level f.file_id ds) files e)
        | inr kept ↦
            rw (e, other, back, kept) (ap (λ fs. f ∷ fs) (survivors-remove_file level d ds files e))
      ]
]

survivors_elsewhere :
    (level : ℕ) (d : DeletedFile) (ds : List DeletedFile) (files : List FileMetadata)
    → (d.level == level) ≡ false
    → survivors level (d ∷ ds) files ≡ survivors level ds files
survivors_elsewhere level d ds [] e = refl
survivors_elsewhere level d ds (f ∷ files) e = elim (Bool-cases (is_deleted level f.file_id ds)) [
  | inl gone ↦ rw (e, gone) (survivors_elsewhere level d (spend level f.file_id ds) files e)
  | inr kept ↦ rw (e, kept) (ap (λ fs. f ∷ fs) (survivors_elsewhere level d ds files e))
]

pub deleted_at-survivors :
    (level : ℕ) (ds : List DeletedFile) (files : List FileMetadata)
    → deleted_at level ds files ≡ survivors level ds files
deleted_at-survivors level [] files = sym (survivors-none level files)
deleted_at-survivors level (d ∷ ds) files = elim (Bool-cases (d.level == level)) [
  | inl here ↦ rw here (
      deleted_at-survivors level ds (remove_file d.file_id files)
      ∙ sym (survivors-remove_file level d ds files here))
  | inr there ↦
      rw there
        (deleted_at-survivors level ds files ∙ sym (survivors_elsewhere level d ds files there))
]
