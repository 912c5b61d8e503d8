-- ===== src/Manifest/Version/Files.antt =====
-- The files of each level, through the steps of `apply`.
use beachdb.Prelude.{
  ℕ, zero, suc, ◌+◌, ◌-◌, ◌<◌, ◌≡◌, refl, sym, ap, ◌∙◌, arith, List, [], ◌∷◌, ◌++◌, length,
  replicate, get_elem?, length-append, ◌==◌, if◌then◌else◌, append-nil, append_assoc, inl, inr,
  Bool-cases,
}
use beachdb.Manifest.Edit.{FileMetadata, DeletedFile}
use beachdb.Manifest.Version.{
  modify_at, remove_file, apply_deletion, apply_deletions, extend_to, apply_addition,
  apply_additions, or_nil,
}

abbrev pub Levels : Type 0
Levels = List (List FileMetadata)

abbrev pub level_of : Levels → ℕ → List FileMetadata
level_of files m = or_nil (get_elem? files m)

-- What the deletions of an edit leave of one level.
abbrev pub deleted_at : ℕ → List DeletedFile → List FileMetadata → List FileMetadata
deleted_at m [] files = files
deleted_at m (d ∷ ds) files =
    deleted_at m ds (if d.level == m then remove_file d.file_id files else files)

-- The files that an edit adds to one level, in the order of the edit.
abbrev pub added_at : ℕ → List FileMetadata → List FileMetadata
added_at m [] = []
added_at m (a ∷ as') = if a.level == m then a ∷ added_at m as' else added_at m as'

pub level_of-modify_at :
    (f : List FileMetadata → List FileMetadata) (n m : ℕ) (files : Levels)
    → f [] ≡ []
    → level_of (modify_at f n files) m ≡ (if n == m then f (level_of files m) else level_of files m)
unfolding modify_at
level_of-modify_at f n m [] e = ground (arith, e)
level_of-modify_at f zero zero (x ∷ xs) e = refl
level_of-modify_at f zero (suc m) (x ∷ xs) e = ground arith
level_of-modify_at f (suc n) zero (x ∷ xs) e = ground arith
level_of-modify_at f (suc n) (suc m) (x ∷ xs) e = ground (arith, level_of-modify_at f n m xs e)

level_of-modify_at_within :
    (f : List FileMetadata → List FileMetadata) (n m : ℕ) (files : Levels)
    → n < length files
    → level_of (modify_at f n files) m ≡ (if n == m then f (level_of files m) else level_of files m)
unfolding modify_at
level_of-modify_at_within f n m [] h = absurd (omega arith)
level_of-modify_at_within f zero zero (x ∷ xs) h = refl
level_of-modify_at_within f zero (suc m) (x ∷ xs) h = ground arith
level_of-modify_at_within f (suc n) zero (x ∷ xs) h = ground arith
level_of-modify_at_within f (suc n) (suc m) (x ∷ xs) h =
    ground (arith, level_of-modify_at_within f n m xs)

level_of-replicate : (n m : ℕ) → level_of (replicate n []) m ≡ []
level_of-replicate zero m = refl
level_of-replicate (suc n) zero = refl
level_of-replicate (suc n) (suc m) = level_of-replicate n m

level_of-append_empty :
    (n m : ℕ) (files : Levels) → level_of (files ++ replicate n []) m ≡ level_of files m
level_of-append_empty n m [] = level_of-replicate n m
level_of-append_empty n zero (x ∷ xs) = refl
level_of-append_empty n (suc m) (x ∷ xs) = level_of-append_empty n m xs

length-replicate : (n : ℕ) → length (replicate {A = List FileMetadata} n []) ≡ n
length-replicate zero = refl
length-replicate (suc n) = ap suc (length-replicate n)

lt-length-extend_to : (level : ℕ) (files : Levels) → level < length (extend_to level files)
unfolding extend_to
lt-length-extend_to level files = omega (
  arith,
  length-append files (replicate (level + 1 - length files) []),
  length-replicate (level + 1 - length files),
)

pub level_of-apply_deletions :
    (ds : List DeletedFile) (m : ℕ) (files : Levels)
    → level_of (apply_deletions files ds) m ≡ deleted_at m ds (level_of files m)
unfolding apply_deletions
level_of-apply_deletions [] m files = refl
level_of-apply_deletions (d ∷ ds) m files =
    level_of-apply_deletions ds m (apply_deletion files d)
    ∙ ap (deleted_at m ds) (
        unfold apply_deletion in
        level_of-modify_at (remove_file d.file_id) d.level m files (unfold remove_file in refl))

level_of-apply_addition :
    (a : FileMetadata) (m : ℕ) (files : Levels)
    → level_of (apply_addition files a) m
      ≡ (if a.level == m then level_of files m ++ (a ∷ []) else level_of files m)
unfolding apply_addition
level_of-apply_addition a m files =
    level_of-modify_at_within (λ fs. fs ++ (a ∷ [])) a.level m (extend_to a.level files)
      (lt-length-extend_to a.level files)
    ∙ unfold extend_to in rw (level_of-append_empty (a.level + 1 - length files) m files) refl

pub level_of-apply_additions :
    (as' : List FileMetadata) (m : ℕ) (files : Levels)
    → level_of (apply_additions files as') m ≡ level_of files m ++ added_at m as'
unfolding apply_additions
level_of-apply_additions [] m files = sym (append-nil (level_of files m))
level_of-apply_additions (a ∷ as') m files =
    level_of-apply_additions as' m (apply_addition files a)
    ∙ rw (level_of-apply_addition a m files) (elim (Bool-cases (a.level == m)) [
      | inl e ↦ rw e (append_assoc (level_of files m) (a ∷ []) (added_at m as'))
      | inr e ↦ rw e refl
    ])
