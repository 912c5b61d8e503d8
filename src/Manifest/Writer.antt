-- ===== src/Manifest/Writer.antt =====
-- internal/manifest/record.go and writer.go: the record format of the manifest and its writer. Append
-- writes a record and syncs the file; no call of the operating system fails here.
use beachdb.Prelude.{
  ◌≤◌, ◌≡◌, refl, ap, ◌∙◌, arith, Bool, true, false, [], ◌∷◌, ◌++◌, Bytes, length, Result, ok, err,
  panic, if◌then◌else◌,
}
use beachdb.Record.{Format, IsFormat, RecordError, default_max_payload_size, encode}
use beachdb.Stream.Torn.{record_of, encode_fits}

-- BEACHMAN
abbrev pub manifest_magic : Bytes
manifest_magic = 0x42 ∷ 0x45 ∷ 0x41 ∷ 0x43 ∷ 0x48 ∷ 0x4d ∷ 0x41 ∷ 0x4e ∷ []

abbrev pub manifest_record_format : Format
manifest_record_format = record {
  magic = manifest_magic;
  max_payload_size = default_max_payload_size;
}

pub data ManifestError : Type 0 where
  writer_closed : ManifestError
  record_error : RecordError → ManifestError

pub record Writer : Type 0 where
  pub is_open : Bool
  pub file : Bytes

unfoldable pub new_writer : Bytes → Writer
new_writer contents = record { is_open = true; file = contents }

append_record : Result RecordError Bytes → Writer → Result ManifestError (Unit {0}) × Writer
append_record (err e) w = (err (record_error e), w)
append_record panic w = (panic, w)
append_record (ok bytes) w =
    if w.is_open
    then (ok tt, record { is_open = w.is_open; file = w.file ++ bytes })
    else (err writer_closed, w)

unfoldable pub append : Bytes → Writer → Result ManifestError (Unit {0}) × Writer
unfolding append_record
append payload w = append_record (encode manifest_record_format payload) w

unfoldable pub close : Writer → Result ManifestError (Unit {0}) × Writer
close w =
    if w.is_open then (ok tt, record { is_open = false; file = w.file }) else (err writer_closed, w)

pub manifest_record_format-IsFormat : IsFormat manifest_record_format
manifest_record_format-IsFormat = record { magic = refl; max_payload_size = omega arith }

pub append_fits :
    (payload : Bytes) (w : Writer)
    → w.is_open ≡ true
    → length payload ≤ manifest_record_format.max_payload_size
    → append payload w ≡ (
      ok tt,
      record { is_open = true; file = w.file ++ record_of manifest_record_format payload },
    )
unfolding append append_record
append_fits payload w is_open fits =
    ap (λ (x : Result RecordError Bytes). append_record x w)
      (encode_fits manifest_record_format manifest_record_format-IsFormat payload fits)
    ∙ rw is_open refl
