-- ===== src/Manifest/Edit/Codec.antt =====
-- Decoding what `encode_edit` wrote.
use beachdb.Prelude.{
  ℕ, ◌≤◌, ◌≡◌, refl, arith, true, [], ◌∷◌, ◌++◌, Bytes, append-nil, length, ok, le→ltb-false,
  or_err,
}
use beachdb.Coding.{read_byte, put_uint32, put_uint64, IsU64}
use beachdb.Coding.Decoder.{reading}
use beachdb.Coding.Decoder.Consumes.{
  Consumes, Consumes-pure, Consumes-lift, Consumes-reading, Consumes-bind, Consumes-map,
  Consumes-check, Consumes-read_byte, Consumes-read_uint32, Consumes-read_uint64,
  Consumes-read_bytes,
}
use beachdb.Keys.{InternalKey, encode, decode_internal_key, IsValidKey}
use beachdb.Keys.Codec.{decode_internal_key-encode}
use beachdb.Manifest.Edit.{
  FileMetadata, DeletedFile, VersionEdit, truncated_edit, edit_field_too_large, corrupt_key,
  max_length_prefixed_field, tag_next_file_id, tag_last_sequence, tag_log_number, tag_delete_file,
  tag_add_file, write_deleted_file, write_length_prefixed_bytes, write_added_file,
  read_length_prefixed_bytes, decode_deleted_file, decode_added_file, decode_tag, decode_field,
  decode_next_file_id, decode_last_sequence, decode_log_number, decode_deletion, decode_addition,
  IsEncodableFile, IsEncodableDeletion,
}

Consumes-read_length_prefixed_bytes :
    (b : Bytes)
    → length b ≤ max_length_prefixed_field
    → Consumes read_length_prefixed_bytes (write_length_prefixed_bytes b) b
unfolding read_length_prefixed_bytes write_length_prefixed_bytes
Consumes-read_length_prefixed_bytes b fits =
    Consumes-bind _ _
      (Consumes-reading truncated_edit (Consumes-read_uint32 (length b) (omega arith)))
      (Consumes-check edit_field_too_large (le→ltb-false max_length_prefixed_field (length b) fits)
        (Consumes-reading truncated_edit (Consumes-read_bytes b)))

key_decodes :
    (k : InternalKey) → IsValidKey k → or_err (decode_internal_key (encode k)) corrupt_key ≡ ok k
key_decodes k v = rw (decode_internal_key-encode k v) refl

Consumes-decode_added_file :
    (a : FileMetadata)
    → IsEncodableFile a
    → Consumes decode_added_file
        (put_uint32 a.level
          ++ (put_uint64 a.file_id
              ++ (put_uint64 a.size
                  ++ (write_length_prefixed_bytes (encode a.smallest_key)
                      ++ (write_length_prefixed_bytes (encode a.largest_key) ++ [])))))
        a
unfolding decode_added_file
Consumes-decode_added_file a fits =
    Consumes-bind _ _ (Consumes-reading truncated_edit (Consumes-read_uint32 a.level fits.level)) (
      Consumes-bind _ _
        (Consumes-reading truncated_edit (Consumes-read_uint64 a.file_id fits.file_id))
        (Consumes-bind _ _ (Consumes-reading truncated_edit (Consumes-read_uint64 a.size fits.size))
          (Consumes-bind _ _
            (Consumes-read_length_prefixed_bytes (encode a.smallest_key) fits.smallest_size)
            (Consumes-bind _ _
              (Consumes-read_length_prefixed_bytes (encode a.largest_key) fits.largest_size)
              (Consumes-bind _ _ (Consumes-lift (key_decodes a.smallest_key fits.smallest_key)) (
                Consumes-bind _ _ (Consumes-lift (key_decodes a.largest_key fits.largest_key))
                  (Consumes-pure a)))))))

Consumes-decode_deleted_file :
    (d : DeletedFile)
    → IsEncodableDeletion d
    → Consumes decode_deleted_file (put_uint32 d.level ++ put_uint64 d.file_id) d
unfolding decode_deleted_file
Consumes-decode_deleted_file d fits =
    Consumes-bind _ _ (Consumes-reading truncated_edit (Consumes-read_uint32 d.level fits.level)) (
      Consumes-map _ (λ v. record { level = d.level; file_id = v })
        (Consumes-reading truncated_edit (Consumes-read_uint64 d.file_id fits.file_id)) refl)

-- What each field does to the edit that is being decoded.
module _ (edit : VersionEdit) where
  tag_byte : (tag : ℕ) → Consumes (reading read_byte truncated_edit) (tag ∷ []) tag
  tag_byte tag = Consumes-reading truncated_edit (Consumes-read_byte tag)

  pub Consumes-next_file_id :
      (v : ℕ)
      → IsU64 v
      → Consumes
          (decode_field edit)
          (tag_next_file_id ∷ put_uint64 v)
          (record edit { next_file_id = v; has_next_file_id = true })
  unfolding decode_field decode_tag decode_next_file_id
  Consumes-next_file_id v small = Consumes-bind _ (decode_tag edit) (tag_byte tag_next_file_id) (
      Consumes-map _ (λ x. record edit { next_file_id = x; has_next_file_id = true })
        (Consumes-reading truncated_edit (Consumes-read_uint64 v small)) refl)

  pub Consumes-last_sequence :
      (v : ℕ)
      → IsU64 v
      → Consumes
          (decode_field edit)
          (tag_last_sequence ∷ put_uint64 v)
          (record edit { last_sequence = v; has_last_sequence = true })
  unfolding decode_field decode_tag decode_last_sequence
  Consumes-last_sequence v small = Consumes-bind _ (decode_tag edit) (tag_byte tag_last_sequence) (
      Consumes-map _ (λ x. record edit { last_sequence = x; has_last_sequence = true })
        (Consumes-reading truncated_edit (Consumes-read_uint64 v small)) refl)

  pub Consumes-log_number :
      (v : ℕ)
      → IsU64 v
      → Consumes
          (decode_field edit)
          (tag_log_number ∷ put_uint64 v)
          (record edit { log_number = v; has_log_number = true })
  unfolding decode_field decode_tag decode_log_number
  Consumes-log_number v small = Consumes-bind _ (decode_tag edit) (tag_byte tag_log_number) (
      Consumes-map _ (λ x. record edit { log_number = x; has_log_number = true })
        (Consumes-reading truncated_edit (Consumes-read_uint64 v small)) refl)

  pub Consumes-deletion :
      (d : DeletedFile)
      → IsEncodableDeletion d
      → Consumes
          (decode_field edit)
          (write_deleted_file d)
          (record edit { deleted_files = edit.deleted_files ++ (d ∷ []) })
  unfolding decode_field decode_tag decode_deletion write_deleted_file
  Consumes-deletion d fits = Consumes-bind _ (decode_tag edit) (tag_byte tag_delete_file) (
      Consumes-map _ (λ x. record edit { deleted_files = edit.deleted_files ++ (x ∷ []) })
        (Consumes-decode_deleted_file d fits) refl)

  pub Consumes-addition :
      (a : FileMetadata)
      → IsEncodableFile a
      → Consumes
          (decode_field edit)
          (write_added_file a)
          (record edit { added_files = edit.added_files ++ (a ∷ []) })
  unfolding decode_field decode_tag decode_addition write_added_file
  Consumes-addition a fits = Consumes-bind _ (decode_tag edit) (tag_byte tag_add_file) (
      Consumes-map _ (λ x. record edit { added_files = edit.added_files ++ (x ∷ []) })
        (rw (← append-nil (write_length_prefixed_bytes (encode a.largest_key)))
          (Consumes-decode_added_file a fits))
        refl)
