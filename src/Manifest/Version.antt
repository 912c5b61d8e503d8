-- ===== src/Manifest/Version.antt =====
-- internal/manifest/version.go: which table files exist, by level. A version is never changed in
-- place: `apply` works on a copy, so slices are lists here. `slices.SortFunc` is an insertion sort,
-- which fixes the order of files with the same smallest key; Go leaves that order open.
pub mod Sorted
pub mod Files
pub mod Survivors
pub mod Applied
use beachdb.Prelude.{
  ℕ, zero, suc, ◌+◌, ◌-◌, ◌≡◌, Ordering, Bool, true, false, ◌||◌, List, [], ◌∷◌, ◌++◌, length,
  replicate, get_elem?, Option, none, some, ◌==◌, leb, if◌then◌else◌,
}
use beachdb.Keys.{compare_keys}
use beachdb.Manifest.Edit.{FileMetadata, DeletedFile, VersionEdit}

pub record Version : Type 0 where
  pub files : List (List FileMetadata)

-- The capacity is a hint to the allocator.
unfoldable pub new_version : Version
new_version = record { files = [] }

-- `files[level] = f(files[level])`, and nothing where there is no such level.
unfoldable pub modify_at {ℓ} : {A : Type ℓ} → (A → A) → ℕ → List A → List A
modify_at f n [] = []
modify_at f zero (x ∷ xs) = f x ∷ xs
modify_at f (suc n) (x ∷ xs) = x ∷ modify_at f n xs

-- The inner loop of the deletions: the first file of that id goes.
unfoldable pub remove_file : ℕ → List FileMetadata → List FileMetadata
remove_file file_id [] = []
remove_file file_id (fm ∷ files) =
    if fm.file_id == file_id then files else fm ∷ remove_file file_id files

unfoldable pub apply_deletion : List (List FileMetadata) → DeletedFile → List (List FileMetadata)
unfolding modify_at remove_file
apply_deletion files d = modify_at (remove_file d.file_id) d.level files

unfoldable pub apply_deletions :
    List (List FileMetadata) → List DeletedFile → List (List FileMetadata)
unfolding apply_deletion
apply_deletions files [] = files
apply_deletions files (d ∷ ds) = apply_deletions (apply_deletion files d) ds

-- `for int(level) >= len(files) { files = append(files, nil) }`
unfoldable pub extend_to : ℕ → List (List FileMetadata) → List (List FileMetadata)
extend_to level files = files ++ replicate (level + 1 - length files) []

unfoldable pub apply_addition : List (List FileMetadata) → FileMetadata → List (List FileMetadata)
unfolding modify_at extend_to
apply_addition files a = modify_at (λ fs. fs ++ (a ∷ [])) a.level (extend_to a.level files)

unfoldable pub apply_additions :
    List (List FileMetadata) → List FileMetadata → List (List FileMetadata)
unfolding apply_addition
apply_additions files [] = files
apply_additions files (a ∷ as') = apply_additions (apply_addition files a) as'

-- The levels of the edit: the keys of the `touched` map, each once.
unfoldable pub contains : ℕ → List ℕ → Bool
contains n [] = false
contains n (m ∷ ms) = m == n || contains n ms

unfoldable pub touch : ℕ → List ℕ → List ℕ
unfolding contains
touch n ms = if contains n ms then ms else n ∷ ms

unfoldable pub touch_deletions : List DeletedFile → List ℕ → List ℕ
unfolding touch
touch_deletions [] touched = touched
touch_deletions (d ∷ ds) touched = touch_deletions ds (touch d.level touched)

unfoldable pub touch_additions : List FileMetadata → List ℕ → List ℕ
unfolding touch
touch_additions [] touched = touched
touch_additions (a ∷ as') touched = touch_additions as' (touch a.level touched)

-- `a.SmallestKey.Compare(b.SmallestKey)`
unfoldable pub insert_file : FileMetadata → List FileMetadata → List FileMetadata
insert_file a [] = a ∷ []
insert_file a (b ∷ bs) = elim (compare_keys a.smallest_key b.smallest_key) [
  | Ordering.gt ↦ b ∷ insert_file a bs
  | _ ↦ a ∷ (b ∷ bs)
]

unfoldable pub sort_files : List FileMetadata → List FileMetadata
unfolding insert_file
sort_files [] = []
sort_files (a ∷ as') = insert_file a (sort_files as')

unfoldable pub sort_files_at : ℕ → List (List FileMetadata) → List (List FileMetadata)
unfolding modify_at sort_files
sort_files_at level files = modify_at sort_files level files

-- Level 0 keeps the order of arrival.
unfoldable pub sort_touched : List ℕ → List (List FileMetadata) → List (List FileMetadata)
unfolding sort_files_at
sort_touched [] files = files
sort_touched (level ∷ levels) files =
    sort_touched levels (if level == 0 then files else sort_files_at level files)

unfoldable pub apply : Version → VersionEdit → Version
unfolding apply_deletions apply_additions touch_deletions touch_additions sort_touched
apply v edit = record {
  files =
      sort_touched (touch_additions edit.added_files (touch_deletions edit.deleted_files []))
        (apply_additions (apply_deletions v.files edit.deleted_files) edit.added_files);
}

abbrev or_nil : Option (List FileMetadata) → List FileMetadata
or_nil none = []
or_nil (some fs) = fs

-- Files(level): nothing beyond the last level.
unfoldable pub files_at : Version → ℕ → List FileMetadata
files_at v level = or_nil (get_elem? v.files level)

unfoldable pub flatten : List (List FileMetadata) → List FileMetadata
flatten [] = []
flatten (fs ∷ rest) = fs ++ flatten rest

unfoldable pub all_files : Version → List FileMetadata
unfolding flatten
all_files v = flatten v.files

unfoldable pub num_levels : Version → ℕ
num_levels v = length v.files
