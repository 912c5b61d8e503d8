-- ===== src/Manifest/Current/Installs.antt =====
-- internal/manifest/current.go: CURRENT is installed whole or not at all.
use beachdb.Prelude.{
  ℕ, zero, suc, ◌+◌, ◌≡◌, ◌⊎◌, refl, ap, ◌∙◌, inl, inr, arith, Bool, true, false, [], ◌∷◌, ◌++◌,
  Bytes, Option, none, some, length, take, Result, ok, err, panic, ◌==◌, Bool-cases,
}
use beachdb.Manifest.Current.{
  CurrentError, File, Directory, is_space, trim_left, trim_right, before_trimmed, trim_space,
  validate_manifest_name, read_current, Call, Event, works, fails, dies, Env, Step, call, open_call,
  write_call, sync_call, close_call, rename_call, sync_dir_call, remove_tmp, install, write_current,
  install_valid, cut, crash, contains_rune,
}

trim_right-newline : (xs : Bytes) → trim_right (xs ++ (b'\n' ∷ [])) ≡ trim_right xs
unfolding trim_right
trim_right-newline [] = refl
trim_right-newline (c ∷ cs) = ap (before_trimmed c) (trim_right-newline cs)

trim_space-newline : (xs : Bytes) → trim_space (xs ++ (b'\n' ∷ [])) ≡ trim_space xs
unfolding trim_space trim_left trim_right
trim_space-newline [] = refl
trim_space-newline (c ∷ cs) = elim (Bool-cases (is_space c)) [
  | inl s ↦ rw s (trim_space-newline cs)
  | inr s ↦ rw s (trim_right-newline (c ∷ cs))
]

nonempty : (name : Bytes) → validate_manifest_name name ≡ ok tt → (length name == 0) ≡ false
unfolding validate_manifest_name
nonempty [] valid = cc valid
nonempty (c ∷ cs) valid = ground arith

no_separator :
    (name : Bytes) → validate_manifest_name name ≡ ok tt → contains_rune name b'/' ≡ false
unfolding validate_manifest_name
no_separator name valid = ground arith

read_current-some :
    (name contents : Bytes)
    → trim_space contents ≡ name
    → validate_manifest_name name ≡ ok tt
    → (dir : Directory) (n : ℕ) → dir.current ≡ some (record { contents = contents; synced = n })
    → read_current false dir ≡ ok name
unfolding read_current
read_current-some name contents trimmed valid dir n is =
    rw (is, trimmed, nonempty name valid, no_separator name valid) refl

-- CURRENT on the disk is what the program sees, and all of it is on the disk.
abbrev pub IsStable : Directory → Type 0
IsStable dir = (dir.on_disk ≡ dir.current) × ((kept : ℕ) → cut kept dir.current ≡ dir.current)

abbrev whole : Bytes → Option File
whole text = some (record { contents = text; synced = length text })

take_more : (kept : ℕ) (xs : Bytes) → take (length xs + kept) xs ≡ xs
take_more zero [] = refl
take_more (suc kept) [] = let e : 0 + suc kept ≡ suc kept = omega arith in rw e refl
take_more kept (x ∷ xs) =
    let e : length (x ∷ xs) + kept ≡ suc (length xs + kept) = omega arith in
    rw e (ap (λ t. x ∷ t) (take_more kept xs))

cut-whole : (kept : ℕ) (text : Bytes) → cut kept (whole text) ≡ whole text
cut-whole kept text = ap whole (take_more kept text)

-- What CURRENT is in the program's view and on the disk: the old file, or the whole new one.
abbrev OldOrNew : Option File → Bytes → Directory → Type 0
OldOrNew old text dir =
    ((dir.current ≡ old) ⊎ (dir.current ≡ whole text))
    × ((dir.on_disk ≡ old) ⊎ (dir.on_disk ≡ whole text))

call-Keeps :
    (P : Directory → Type 0) (ev : Event) (e : CurrentError)
    (effect partly cleanup : Directory → Directory) (behind : Step) (dir : Directory)
    → P (behind (effect dir)).1
    → P (cleanup (partly dir))
    → P (partly dir)
    → P (call ev e effect partly cleanup behind dir).1
unfolding call
call-Keeps P works e effect partly cleanup behind dir on_success on_failure on_death = on_success
call-Keeps P fails e effect partly cleanup behind dir on_success on_failure on_death = on_failure
call-Keeps P dies e effect partly cleanup behind dir on_success on_failure on_death = on_death

module _ (env : Env) (old : Option File) (text : Bytes) where
  remove_tmp-OldOrNew :
      (dir : Directory) → OldOrNew old text dir → OldOrNew old text (remove_tmp env dir)
  remove_tmp-OldOrNew dir kept = elim (Bool-cases env.removal_works) [
    | inl gone ↦ rw gone kept
    | inr left ↦ rw left kept
  ]

  install-OldOrNew :
      (dir : Directory)
      → dir.current ≡ old
      → dir.on_disk ≡ old
      → OldOrNew old text (install env text dir).1
  unfolding install
  install-OldOrNew dir seen on_disk =
      let P = OldOrNew old text in
      let before : P dir = (inl seen, inl on_disk) in
      call-Keeps P (env.event open_call) _ _ _ _ _ _
        (call-Keeps P (env.event write_call) _ _ _ _ _ _
          (call-Keeps P (env.event sync_call) _ _ _ _ _ _
            (call-Keeps P (env.event close_call) _ _ _ _ _ _
              (call-Keeps P (env.event rename_call) _ _ _ _ _ _
                (call-Keeps P (env.event sync_dir_call) _ _ _ _ _ _ (inr refl, inr refl)
                  (inr refl, inl on_disk) (inr refl, inl on_disk))
                (remove_tmp-OldOrNew _ before) before)
              (remove_tmp-OldOrNew _ before) before)
            (remove_tmp-OldOrNew _ before) before)
          (remove_tmp-OldOrNew _ before) before)
        before before

checked_first :
    (v : Result CurrentError (Unit {0})) (env : Env) (name : Bytes) (dir : Directory)
    → IsStable dir
    → OldOrNew dir.current (name ++ (b'\n' ∷ [])) (install_valid v env name dir).1
checked_first (ok _) env name dir (on_disk, _) =
    install-OldOrNew env dir.current (name ++ (b'\n' ∷ [])) dir refl on_disk
checked_first (err e) env name dir (on_disk, _) = (inl refl, inl on_disk)
checked_first panic env name dir (on_disk, _) = (inl refl, inl on_disk)

cut-one_of :
    (kept : ℕ) (old file : Option File) (text : Bytes)
    → cut kept old ≡ old
    → (file ≡ old) ⊎ (file ≡ whole text)
    → (cut kept file ≡ old) ⊎ (cut kept file ≡ whole text)
cut-one_of kept old file text stable (inl same) = inl (ap (cut kept) same ∙ stable)
cut-one_of kept old file text stable (inr new) = inr (ap (cut kept) new ∙ cut-whole kept text)

-- Let CURRENT be on the disk as the program sees it, with all its bytes if it exists. Wherever in
-- WriteCurrent a call of the operating system fails or the process dies, if anywhere, and whatever
-- a crash then leaves of the directory and of the bytes of its files that no fsync has brought to
-- the disk, CURRENT is as it was before or is the whole new name and a newline.
pub write_current_crashed :
    (env : Env) (seen : Bool) (kept : ℕ) (name : Bytes) (dir : Directory)
    → IsStable dir
    → let text = name ++ (b'\n' ∷ []) in
      let after = crash seen kept (write_current env name dir).1 in
      (after.current ≡ dir.current)
      ⊎ (after.current ≡ some (record { contents = text; synced = length text }))
unfolding write_current
write_current_crashed env true kept name dir stable =
    let (current, _) = checked_first (validate_manifest_name name) env name dir stable in
    cut-one_of kept dir.current _ (name ++ (b'\n' ∷ [])) (stable.1 kept) current
write_current_crashed env false kept name dir stable =
    let (_, on_disk) = checked_first (validate_manifest_name name) env name dir stable in
    cut-one_of kept dir.current _ (name ++ (b'\n' ∷ [])) (stable.1 kept) on_disk

install-works :
    (env : Env) (text : Bytes) (dir : Directory)
    → ((c : Call) → env.event c ≡ works)
    → install env text dir
      ≡ (ok tt, record { current = whole text; tmp = none; on_disk = whole text })
unfolding install call
install-works env text dir w =
    rw (w open_call, w write_call, w sync_call, w close_call, w rename_call, w sync_dir_call) refl

crash-installed :
    (seen : Bool) (kept : ℕ) (text : Bytes)
    → (crash seen kept (record { current = whole text; tmp = none; on_disk = whole text })).current
      ≡ whole text
crash-installed true kept text = cut-whole kept text
crash-installed false kept text = cut-whole kept text

-- WriteCurrent of a valid name without white space around it succeeds if every call of the
-- operating system works, and whatever a crash then leaves of the directory and of the bytes that
-- no fsync has brought to the disk, ReadCurrent gives the name.
pub read_current-write_current :
    (env : Env) (seen : Bool) (kept : ℕ) (name : Bytes) (dir : Directory)
    → ((c : Call) → env.event c ≡ works)
    → validate_manifest_name name ≡ ok tt
    → trim_space name ≡ name
    → ((write_current env name dir).0 ≡ ok tt)
      × (read_current false (crash seen kept (write_current env name dir).1) ≡ ok name)
unfolding write_current
read_current-write_current env seen kept name dir w valid trimmed =
    let text : Bytes = name ++ (b'\n' ∷ []) in
    let runs : write_current env name dir
        ≡ (ok tt, record { current = whole text; tmp = none; on_disk = whole text }) =
      ap (λ v. install_valid v env name dir) valid ∙ install-works env text dir w in
    (
      ap (λ p. p.0) runs,
      ap (λ p. read_current false (crash seen kept p.1)) runs
          ∙ read_current-some name text (trim_space-newline name ∙ trimmed) valid
              (crash seen kept (record { current = whole text; tmp = none; on_disk = whole text }))
              (length text) (crash-installed seen kept text),
    )
