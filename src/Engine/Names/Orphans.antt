-- ===== src/Engine/Names/Orphans.antt =====
-- engine/db.go: the removal of the table files that no version names, and the tables that a version
-- opens.
use beachdb.Prelude.{
  ℕ, ◌^◌, ◌<◌, ◌≡◌, refl, arith, Bool, true, false, not, ◌&&◌, List, [], ◌∷◌, Bytes, All, All-map,
  Bool-cases, inl, inr, err, if◌then◌else◌,
}
use beachdb.Record.{bytes_equal}
use beachdb.Record.Codec.{eq_of_bytes_equal}
use beachdb.Manifest.Edit.{FileMetadata}
use beachdb.Manifest.Version.{Version, all_files, contains}
use beachdb.Engine.{missing_file}
use beachdb.Engine.Names.{
  build_sst_file_name, Entry, file_ids, is_orphan, cleanup_orphan_sstables, open_file,
  open_sst_readers, open_sst_readers_for_version,
}
use beachdb.Engine.Names.Decimal.{parse_sst_file_name-build_sst_file_name}

contains_later : (n m : ℕ) (ms : List ℕ) → contains n ms ≡ true → contains n (m ∷ ms) ≡ true
unfolding contains
contains_later n m ms h = ground arith

file_ids-contains :
    (files : List FileMetadata) → All (λ fm. contains fm.file_id (file_ids files) ≡ true) files
unfolding contains
file_ids-contains [] = tt
file_ids-contains (fm ∷ files) = (
  ground arith,
  All-map (λ g. contains g.file_id (file_ids files) ≡ true) _ files
      (λ g h. contains_later g.file_id fm.file_id (file_ids files) h) (file_ids-contains files),
)

is_orphan_named :
    (version : Version) (e : Entry) (id : ℕ)
    → id < 2 ^ 64
    → contains id (file_ids (all_files version)) ≡ true
    → e.name ≡ build_sst_file_name id
    → is_orphan version e ≡ false
unfolding is_orphan
is_orphan_named version e id h c n = elim (Bool-cases e.is_dir) [
  | inl d ↦ rw d refl
  | inr d ↦ rw (d, n, parse_sst_file_name-build_sst_file_name id h, c) refl
]

module _ (removal_fails : Bytes → Bool) (version : Version) (id : ℕ) (h : id < 2 ^ 64)
    (c : contains id (file_ids (all_files version)) ≡ true) where
  open_file-cleanup :
      (entries : List Entry)
      → open_file (build_sst_file_name id) (cleanup_orphan_sstables removal_fails entries version)
        ≡ open_file (build_sst_file_name id) entries
  unfolding open_file cleanup_orphan_sstables
  open_file-cleanup [] = refl
  open_file-cleanup (e ∷ es) = elim (Bool-cases (bytes_equal e.name (build_sst_file_name id))) [
    | inl named ↦
        let kept = is_orphan_named version e id h c (eq_of_bytes_equal e.name _ named) in
        rw (kept, named) refl
    | inr other ↦ elim (Bool-cases (is_orphan version e && not (removal_fails e.name))) [
      | inl removed ↦ rw (removed, other) (open_file-cleanup es)
      | inr kept ↦ rw (kept, other) (open_file-cleanup es)
    ]
  ]

is_orphan_unnamed :
    (version : Version) (e : Entry) (id : ℕ)
    → id < 2 ^ 64
    → contains id (file_ids (all_files version)) ≡ false
    → e.is_dir ≡ false
    → e.name ≡ build_sst_file_name id
    → is_orphan version e ≡ true
unfolding is_orphan
is_orphan_unnamed version e id h c d n =
    rw (d, n, parse_sst_file_name-build_sst_file_name id h, c) refl

open_file_removed :
    (version : Version) (id : ℕ)
    → id < 2 ^ 64
    → contains id (file_ids (all_files version)) ≡ false
    → (entries : List Entry) → All (λ e. e.is_dir ≡ false) entries
    → open_file (build_sst_file_name id) (cleanup_orphan_sstables (λ _. false) entries version)
      ≡ err missing_file
unfolding open_file cleanup_orphan_sstables
open_file_removed version id h c [] ds = refl
open_file_removed version id h c (e ∷ es) (d, ds) =
    elim (Bool-cases (bytes_equal e.name (build_sst_file_name id))) [
      | inl named ↦
          let orphan = is_orphan_unnamed version e id h c d (eq_of_bytes_equal e.name _ named) in
          rw orphan (open_file_removed version id h c es ds)
      | inr other ↦ elim (Bool-cases (is_orphan version e)) [
        | inl orphan ↦ rw orphan (open_file_removed version id h c es ds)
        | inr kept ↦ rw (kept, other) (open_file_removed version id h c es ds)
      ]
    ]

-- In a directory of plain files, with no removal that fails, the file name of a table id below
-- 2^64 opens after the clean-up as it did before if the version names the id, and is missing if
-- the version does not.
pub cleanup_orphan_sstables_lem :
    (version : Version) (entries : List Entry) (id : ℕ)
    → id < 2 ^ 64
    → All (λ e. e.is_dir ≡ false) entries
    → open_file (build_sst_file_name id) (cleanup_orphan_sstables (λ _. false) entries version) ≡ (
        if contains id (file_ids (all_files version))
        then open_file (build_sst_file_name id) entries
        else err missing_file)
cleanup_orphan_sstables_lem version entries id h ds =
    elim (Bool-cases (contains id (file_ids (all_files version)))) [
      | inl c ↦ rw c (open_file-cleanup (λ _. false) version id h c entries)
      | inr c ↦ rw c (open_file_removed version id h c entries ds)
    ]

module _ (removal_fails : Bytes → Bool) (entries : List Entry) (version : Version) where
  open_sst_readers-cleanup :
      (files : List FileMetadata)
      → All (λ fm. fm.file_id < 2 ^ 64) files
      → All (λ fm. contains fm.file_id (file_ids (all_files version)) ≡ true) files
      → open_sst_readers (cleanup_orphan_sstables removal_fails entries version) files
        ≡ open_sst_readers entries files
  unfolding open_sst_readers
  open_sst_readers-cleanup [] hs cs = refl
  open_sst_readers-cleanup (fm ∷ files) (h, hs) (c, cs) =
      rw
        (
          open_file-cleanup removal_fails version fm.file_id h c entries,
          open_sst_readers-cleanup files hs cs,
        )
        refl

  -- Removing the orphaned table files, whichever removals fail, does not change what opening the
  -- tables of the version gives, neither the readers nor the error, if the version's file ids are
  -- below 2^64.
  pub open_sst_readers_for_version-cleanup :
      All (λ fm. fm.file_id < 2 ^ 64) (all_files version)
      → open_sst_readers_for_version (cleanup_orphan_sstables removal_fails entries version) version
        ≡ open_sst_readers_for_version entries version
  unfolding open_sst_readers_for_version
  open_sst_readers_for_version-cleanup hs =
      open_sst_readers-cleanup (all_files version) hs (file_ids-contains (all_files version))
