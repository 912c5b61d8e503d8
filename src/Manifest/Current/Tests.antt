-- ===== src/Manifest/Current/Tests.antt =====
-- A concrete CURRENT file, and the theorems at it.
use beachdb.Prelude.{◌≡◌, ◌⊎◌, refl, true, false, [], ◌∷◌, ◌++◌, Bytes, some, none, length, ok, err}
use beachdb.Manifest.Current.{
  Directory, Env, Event, works, fails, Call, open_call, write_call, sync_call, close_call,
  rename_call, sync_dir_call, sync_dir_failed, failed, no_current_file, invalid_manifest_name,
  read_current, write_current, crash, trim_space, validate_manifest_name,
}
use beachdb.Manifest.Current.Installs.{IsStable, read_current-write_current, write_current_crashed}

-- M-1
abbrev name : Bytes
name = b'M' ∷ b'-' ∷ b'1' ∷ []

-- A fresh directory where an earlier attempt has left its file, which is not on the disk yet.
abbrev empty : Directory
empty = record {
  current = none;
  tmp = some (record { contents = b'x' ∷ []; synced = 0 });
  on_disk = none;
}

empty-IsStable : IsStable empty
empty-IsStable = (refl, λ kept. refl)

abbrev calm : Env
calm = record { event = λ c. works; written = 0; removal_works = true }

-- The sync of the directory fails.
abbrev late_event : Call → Event
late_event open_call = works
late_event write_call = works
late_event sync_call = works
late_event close_call = works
late_event rename_call = works
late_event sync_dir_call = fails

abbrev late : Env
late = record { event = late_event; written = 0; removal_works = true }

fresh : read_current false empty ≡ err no_current_file
unfolding read_current
fresh = refl

blank :
    read_current false
      (record empty { current = some (record { contents = b' ' ∷ b'\n' ∷ []; synced = 2 }) })
    ≡ err invalid_manifest_name
unfolding read_current
blank = refl

-- The parent directory has a name without a separator.
parent_passes : validate_manifest_name (b'.' ∷ b'.' ∷ []) ≡ ok tt
unfolding validate_manifest_name
parent_passes = refl

-- The call fails, and CURRENT has the new name all the same.
renamed_and_failed : write_current late name empty ≡ (
  err (failed sync_dir_failed),
  record {
    current = some (record { contents = name ++ (b'\n' ∷ []); synced = 4 });
    tmp = none;
    on_disk = none;
  },
)
unfolding write_current
renamed_and_failed = refl

name_valid : validate_manifest_name name ≡ ok tt
unfolding validate_manifest_name
name_valid = refl

name_trimmed : trim_space name ≡ name
unfolding trim_space
name_trimmed = refl

read_current-write_current_example :
    ((write_current calm name empty).0 ≡ ok tt)
    × (read_current false (crash false 0 (write_current calm name empty).1) ≡ ok name)
read_current-write_current_example =
    read_current-write_current calm false 0 name empty (λ c. refl) name_valid name_trimmed

write_current_crashed_example :
    let after = crash true 0 (write_current late name empty).1 in
    (after.current ≡ none)
    ⊎ (after.current
        ≡ some (record { contents = name ++ (b'\n' ∷ []); synced = length (name ++ (b'\n' ∷ [])) }))
write_current_crashed_example = write_current_crashed late true 0 name empty empty-IsStable
