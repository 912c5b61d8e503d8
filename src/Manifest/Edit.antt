-- ===== src/Manifest/Edit.antt =====
-- internal/manifest/edit.go: version edits and their tag-length-value encoding.
pub mod Codec
pub mod RoundTrip
pub mod Total
use beachdb.Prelude.{
  ℕ, zero, suc, ◌+◌, ◌*◌, ◌^◌, ◌≤◌, ◌≡◌, Bool, true, false, List, [], ◌∷◌, ◌++◌, Bytes, length, All,
}
use beachdb.Prelude.{Result, ok, err, panic, or_err, ltb, ◌==◌, if◌then◌else◌}
use beachdb.Coding.{
  put_uint32, put_uint64, IsU32, IsU64, new_byte_reader, ByteReader, remaining, read_byte,
  read_uint32, read_uint64, read_bytes,
}
use beachdb.Coding.Decoder.{Decoder, pure, lift, fail_if, reading, ◌>>=◌, ◌>>◌, while_remaining}
use beachdb.Keys.{InternalKey, KeyError, encode, decode_internal_key, IsValidKey}

abbrev pub tag_add_file : ℕ
tag_add_file = 1

abbrev pub tag_delete_file : ℕ
tag_delete_file = 2

abbrev pub tag_next_file_id : ℕ
tag_next_file_id = 3

abbrev pub tag_last_sequence : ℕ
tag_last_sequence = 4

abbrev pub tag_log_number : ℕ
tag_log_number = 5

abbrev pub max_length_prefixed_field : ℕ
max_length_prefixed_field = 2 ^ 16

pub record FileMetadata : Type 0 where
  pub level : ℕ
  pub file_id : ℕ
  pub size : ℕ
  pub smallest_key : InternalKey
  pub largest_key : InternalKey

pub record DeletedFile : Type 0 where
  pub level : ℕ
  pub file_id : ℕ

pub record VersionEdit : Type 0 where
  pub added_files : List FileMetadata
  pub deleted_files : List DeletedFile
  pub has_next_file_id : Bool
  pub next_file_id : ℕ
  pub has_last_sequence : Bool
  pub last_sequence : ℕ
  pub has_log_number : Bool
  pub log_number : ℕ

-- `&VersionEdit{}`
abbrev pub empty_edit : VersionEdit
empty_edit = record {
  added_files = [];
  deleted_files = [];
  has_next_file_id = false;
  next_file_id = 0;
  has_last_sequence = false;
  last_sequence = 0;
  has_log_number = false;
  log_number = 0;
}

-- ErrTruncatedEdit, ErrUnknownTag, ErrEditFieldTooLarge, and the wrapped key error.
pub data EditError : Type 0 where
  truncated_edit unknown_tag edit_field_too_large corrupt_key : EditError

unfoldable pub write_counter_tag : ℕ → Bool → ℕ → Bytes
write_counter_tag tag has value = if has then tag ∷ put_uint64 value else []

unfoldable pub write_deleted_file : DeletedFile → Bytes
write_deleted_file d = tag_delete_file ∷ (put_uint32 d.level ++ put_uint64 d.file_id)

unfoldable pub write_length_prefixed_bytes : Bytes → Bytes
write_length_prefixed_bytes b = put_uint32 (length b) ++ b

unfoldable pub write_added_file : FileMetadata → Bytes
write_added_file a =
    tag_add_file
    ∷ (put_uint32 a.level
        ++ (put_uint64 a.file_id
            ++ (put_uint64 a.size
                ++ (write_length_prefixed_bytes (encode a.smallest_key)
                    ++ write_length_prefixed_bytes (encode a.largest_key)))))

unfoldable pub write_deleted_files : List DeletedFile → Bytes
write_deleted_files [] = []
write_deleted_files (d ∷ ds) = write_deleted_file d ++ write_deleted_files ds

unfoldable pub write_added_files : List FileMetadata → Bytes
write_added_files [] = []
write_added_files (a ∷ as') = write_added_file a ++ write_added_files as'

-- The counters, then the deleted files, then the added files.
unfoldable pub encode_edit : VersionEdit → Bytes
encode_edit e =
    write_counter_tag tag_next_file_id e.has_next_file_id e.next_file_id
    ++ (write_counter_tag tag_last_sequence e.has_last_sequence e.last_sequence
        ++ (write_counter_tag tag_log_number e.has_log_number e.log_number
            ++ (write_deleted_files e.deleted_files ++ write_added_files e.added_files)))

read_length_prefixed_bytes : Decoder EditError Bytes
read_length_prefixed_bytes = do
  n ← reading read_uint32 truncated_edit
  fail_if (ltb max_length_prefixed_field n) edit_field_too_large
  reading (read_bytes n) truncated_edit

decode_deleted_file : Decoder EditError DeletedFile
decode_deleted_file = do
  level ← reading read_uint32 truncated_edit
  file_id ← reading read_uint64 truncated_edit
  pure (record { level = level; file_id = file_id })

decode_added_file : Decoder EditError FileMetadata
decode_added_file = do
  level ← reading read_uint32 truncated_edit
  file_id ← reading read_uint64 truncated_edit
  file_size ← reading read_uint64 truncated_edit
  smallest_bytes ← read_length_prefixed_bytes
  largest_bytes ← read_length_prefixed_bytes
  smallest_key ← lift (or_err (decode_internal_key smallest_bytes) corrupt_key)
  largest_key ← lift (or_err (decode_internal_key largest_bytes) corrupt_key)
  pure (record {
    level = level;
    file_id = file_id;
    size = file_size;
    smallest_key = smallest_key;
    largest_key = largest_key;
  })

decode_next_file_id : VersionEdit → Decoder EditError VersionEdit
decode_next_file_id edit = do
  v ← reading read_uint64 truncated_edit
  pure (record edit { next_file_id = v; has_next_file_id = true })

decode_last_sequence : VersionEdit → Decoder EditError VersionEdit
decode_last_sequence edit = do
  v ← reading read_uint64 truncated_edit
  pure (record edit { last_sequence = v; has_last_sequence = true })

decode_log_number : VersionEdit → Decoder EditError VersionEdit
decode_log_number edit = do
  v ← reading read_uint64 truncated_edit
  pure (record edit { log_number = v; has_log_number = true })

decode_deletion : VersionEdit → Decoder EditError VersionEdit
decode_deletion edit = do
  d ← decode_deleted_file
  pure (record edit { deleted_files = edit.deleted_files ++ (d ∷ []) })

decode_addition : VersionEdit → Decoder EditError VersionEdit
decode_addition edit = do
  f ← decode_added_file
  pure (record edit { added_files = edit.added_files ++ (f ∷ []) })

decode_tag : VersionEdit → ℕ → Decoder EditError VersionEdit
decode_tag edit tag =
    if tag == tag_next_file_id
    then decode_next_file_id edit
    else if tag == tag_last_sequence
    then decode_last_sequence edit
    else if tag == tag_log_number
    then decode_log_number edit
    else if tag == tag_delete_file
    then decode_deletion edit
    else if tag == tag_add_file
    then decode_addition edit
    else lift (err unknown_tag)

-- One round of `for r.Remaining() > 0`.
pub decode_field : VersionEdit → Decoder EditError VersionEdit
decode_field edit = reading read_byte truncated_edit >>= λ tag. decode_tag edit tag

abbrev pub result : Result EditError (VersionEdit × ByteReader) → Result EditError VersionEdit
result (ok (a, _)) = ok a
result (err e) = err e
result panic = panic

-- Each round takes a byte, so as many rounds as bytes are enough.
unfoldable pub decode_version_edit : Bytes → Result EditError VersionEdit
unfolding decode_field decode_tag decode_next_file_id decode_last_sequence decode_log_number
    decode_deletion decode_addition decode_deleted_file decode_added_file read_length_prefixed_bytes
    while_remaining
decode_version_edit buf =
    result (while_remaining (length buf) decode_field empty_edit (new_byte_reader buf))

-- An edit that the format can hold: fields in the range of their Go types, keys that are valid and
-- no longer than the decoder accepts, and no value behind a flag that is off.
pub record IsEncodableFile (a : FileMetadata) : Type 0 where
  pub level : IsU32 a.level
  pub file_id : IsU64 a.file_id
  pub size : IsU64 a.size
  pub smallest_key : IsValidKey a.smallest_key
  pub smallest_size : length (encode a.smallest_key) ≤ max_length_prefixed_field
  pub largest_key : IsValidKey a.largest_key
  pub largest_size : length (encode a.largest_key) ≤ max_length_prefixed_field

pub record IsEncodableDeletion (d : DeletedFile) : Type 0 where
  pub level : IsU32 d.level
  pub file_id : IsU64 d.file_id

-- A counter of an edit: unset, it is 0, as Go leaves it.
abbrev pub CounterFits : Bool → ℕ → Type 0
CounterFits true value = IsU64 value
CounterFits false value = value ≡ 0

pub record IsEncodable (e : VersionEdit) : Type 0 where
  pub next_file_id : CounterFits e.has_next_file_id e.next_file_id
  pub last_sequence : CounterFits e.has_last_sequence e.last_sequence
  pub log_number : CounterFits e.has_log_number e.log_number
  pub deleted_files : All IsEncodableDeletion e.deleted_files
  pub added_files : All IsEncodableFile e.added_files
