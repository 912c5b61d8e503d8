-- ===== src/Manifest/Current.antt =====
-- internal/manifest/current.go: the CURRENT file, which names the live manifest. Of the directory only
-- CURRENT and CURRENT.tmp count. A file has contents, of which a first part has reached the disk; the
-- directory has the entries that the program sees, and the file that CURRENT names on the disk. At
-- each call of the operating system the environment says whether the call works, whether it fails, or
-- whether the process dies there. Names are in ASCII.
pub mod Installs
mod Tests
use beachdb.Prelude.{
  ℕ, ◌+◌, take, Bool, true, false, not, ◌||◌, List, [], ◌∷◌, ◌++◌, Bytes, Option, none, some,
  length, Result, ok, err, panic, return_if, ◌>>◌, ◌==◌, leb, ◌&&◌, if◌then◌else◌,
}

pub data CurrentError : Type 0 where
  no_current_file invalid_manifest_name read_failed : CurrentError
  open_failed write_failed sync_failed close_failed rename_failed sync_dir_failed : CurrentError

-- `synced` is the number of bytes that an fsync has brought to the disk.
pub record File : Type 0 where
  pub contents : Bytes
  pub synced : ℕ

-- `on_disk` is CURRENT's entry as of the last fsync of the directory.
pub record Directory : Type 0 where
  pub current : Option File
  pub tmp : Option File
  pub on_disk : Option File

-- The white space of ASCII.
abbrev pub is_space : ℕ → Bool
is_space c = c == b' ' || leb 9 c && leb c 13

unfoldable pub trim_left : Bytes → Bytes
trim_left [] = []
trim_left (c ∷ cs) = let rest = trim_left cs in if is_space c then rest else c ∷ cs

-- A byte in front of the rest, which is trimmed.
abbrev pub before_trimmed : ℕ → Bytes → Bytes
before_trimmed c [] = if is_space c then [] else c ∷ []
before_trimmed c (d ∷ ds) = c ∷ d ∷ ds

unfoldable pub trim_right : Bytes → Bytes
trim_right [] = []
trim_right (c ∷ cs) = before_trimmed c (trim_right cs)

-- `strings.TrimSpace`
unfoldable pub trim_space : Bytes → Bytes
unfolding trim_left trim_right
trim_space text = trim_right (trim_left text)

abbrev pub contains_rune : Bytes → ℕ → Bool
contains_rune [] c = false
contains_rune (d ∷ ds) c = d == c || contains_rune ds c

-- The path separator is '/', so the two tests of the code are the same one.
unfoldable pub validate_manifest_name : Bytes → Result CurrentError (Unit {0})
validate_manifest_name name = do
  return_if (length name == 0) invalid_manifest_name
  return_if (contains_rune name b'/') invalid_manifest_name
  return_if (contains_rune name b'/') invalid_manifest_name

unfoldable pub read_current : Bool → Directory → Result CurrentError Bytes
unfolding trim_space validate_manifest_name
read_current read_fails dir = elim dir.current [
  | none ↦ err no_current_file
  | some file ↦ do
    return_if read_fails read_failed
    return_if (length (trim_space file.contents) == 0) invalid_manifest_name
    validate_manifest_name (trim_space file.contents)
    ok (trim_space file.contents)
]

-- The calls of the operating system in WriteCurrent, and what can become of one.
pub data Call : Type 0 where
  open_call write_call sync_call close_call rename_call sync_dir_call : Call

pub data Event : Type 0 where
  works fails dies : Event

-- Of the text a write that does not work leaves the first bytes. A removal may fail, which the code
-- ignores.
pub record Env : Type 0 where
  pub event : Call → Event
  pub written : ℕ
  pub removal_works : Bool

-- Why WriteCurrent does not end well.
pub data Halt : Type 0 where
  failed : CurrentError → Halt
  died : Halt

abbrev pub Step : Type 0
Step = Directory → Result Halt (Unit {0}) × Directory

-- One call and the code behind it: `effect` is what the call does, `partly` what it does where it
-- does not work, `cleanup` what the code does on an error.
unfoldable pub call :
    Event
    → CurrentError
    → (Directory → Directory)
    → (Directory → Directory)
    → (Directory → Directory)
    → Step
    → Step
call works e effect partly cleanup behind dir = behind (effect dir)
call fails e effect partly cleanup behind dir = (err (failed e), cleanup (partly dir))
call dies e effect partly cleanup behind dir = (err died, partly dir)

abbrev pub unchanged : Directory → Directory
unchanged dir = dir

-- `os.OpenFile` with O_CREATE and O_TRUNC.
abbrev pub open_tmp : Directory → Directory
open_tmp dir = record dir { tmp = some (record { contents = []; synced = 0 }) }

abbrev pub append_to : Bytes → Option File → Option File
append_to text none = none
append_to text (some f) = some (record { contents = f.contents ++ text; synced = f.synced })

abbrev pub write_tmp : Bytes → Directory → Directory
write_tmp text dir = record dir { tmp = append_to text dir.tmp }

abbrev pub sync_file : Option File → Option File
sync_file none = none
sync_file (some f) = some (record { contents = f.contents; synced = length f.contents })

abbrev pub sync_tmp : Directory → Directory
sync_tmp dir = record dir { tmp = sync_file dir.tmp }

abbrev pub remove_tmp : Env → Directory → Directory
remove_tmp env dir = if env.removal_works then record dir { tmp = none } else dir

-- `os.Rename`: the file that CURRENT.tmp names gets the name CURRENT, as it is.
abbrev pub rename_tmp : Directory → Directory
rename_tmp dir = elim dir.tmp [
  | none ↦ dir
  | some f ↦ record { current = some f; tmp = none; on_disk = dir.on_disk }
]

-- `fs.SyncDir`
abbrev pub sync_dir : Directory → Directory
sync_dir dir = record dir { on_disk = dir.current }

abbrev pub return_ok : Step
return_ok dir = (ok tt, dir)

-- WriteCurrent from the opening of CURRENT.tmp on.
unfoldable pub install : Env → Bytes → Step
unfolding call
install env text = call (env.event open_call) open_failed open_tmp unchanged unchanged (
    call (env.event write_call) write_failed (write_tmp text) (write_tmp (take env.written text))
      (remove_tmp env)
      (call (env.event sync_call) sync_failed sync_tmp unchanged (remove_tmp env) (
        call (env.event close_call) close_failed unchanged unchanged (remove_tmp env) (
          call (env.event rename_call) rename_failed rename_tmp unchanged (remove_tmp env) (
            call (env.event sync_dir_call) sync_dir_failed sync_dir unchanged unchanged
              return_ok)))))

abbrev pub install_valid : Result CurrentError (Unit {0}) → Env → Bytes → Step
install_valid (ok _) env name dir = install env (name ++ (b'\n' ∷ [])) dir
install_valid (err e) env name dir = (err (failed e), dir)
install_valid panic env name dir = (panic, dir)

unfoldable pub write_current : Env → Bytes → Step
unfolding install validate_manifest_name
write_current env name dir = install_valid (validate_manifest_name name) env name dir

-- What a crash leaves of a file: its bytes on the disk, and any number of those behind them.
abbrev pub cut : ℕ → Option File → Option File
cut kept none = none
cut kept (some f) =
    let left = take (f.synced + kept) f.contents in
    some (record { contents = left; synced = length left })

-- What a crash leaves: the file that CURRENT names on the disk, or, if the change of the directory
-- has reached it by itself, the one that it names in the program's view; and of that file what is left.
abbrev pub crash : Bool → ℕ → Directory → Directory
crash seen kept dir =
    let left = cut kept (if seen then dir.current else dir.on_disk) in
    record { current = left; tmp = cut kept dir.tmp; on_disk = left }
