-- ===== src/Manifest/Edit/Total.antt =====
-- Decoding a version edit from any bytes at all.
use beachdb.Prelude.{
  ℕ, ◌+◌, ◌≡◌, arith, true, [], ◌∷◌, Bytes, length, All, All-append, Result, ok, err, panic, Safe,
  or_err, ltb, ◌==◌, Bool-cases, inl, inr,
}
use beachdb.Coding.{new_byte_reader, remaining, ByteReader, read_uint32, read_uint64}
use beachdb.Coding.Decoder.{lift, reading, while_remaining}
use beachdb.Coding.Decoder.Sound.{
  Sound, After, Sound-pure, Sound-lift, Sound-mono, Sound-reading, Sound-bind, Sound-check,
  Sound-weaken, Sound-read_byte, Sound-read_uint32, Sound-read_uint64, Sound-read_bytes,
  Sound-while_remaining,
}
use beachdb.Keys.{InternalKey, KeyError, decode_internal_key, is_valid_kind}
use beachdb.Keys.Codec.{decode_internal_key-Safe}
use beachdb.Manifest.Edit.{
  FileMetadata, VersionEdit, empty_edit, EditError, truncated_edit, unknown_tag,
  edit_field_too_large, corrupt_key, max_length_prefixed_field, tag_next_file_id, tag_last_sequence,
  tag_log_number, tag_delete_file, tag_add_file, read_length_prefixed_bytes, decode_deleted_file,
  decode_added_file, decode_next_file_id, decode_last_sequence, decode_log_number, decode_deletion,
  decode_addition, decode_tag, decode_field, decode_version_edit, result,
}

-- The kinds of the two keys are supported.
abbrev pub HasValidKinds : FileMetadata → Type 0
HasValidKinds a =
    (is_valid_kind a.smallest_key.kind ≡ true) × (is_valid_kind a.largest_key.kind ≡ true)

abbrev pub IsWellFormed : VersionEdit → Type 0
IsWellFormed e = All HasValidKinds e.added_files

key-Safe :
    (buf : Bytes)
    → Safe (λ k. is_valid_kind k.kind ≡ true) (or_err (decode_internal_key buf) corrupt_key)
key-Safe buf = go (decode_internal_key buf) (decode_internal_key-Safe buf)
  where
    go :
        (x : Result KeyError InternalKey)
        → Safe (λ k. (is_valid_kind k.kind ≡ true) × (length buf ≡ length k.user_key + 9)) x
        → Safe (λ k. is_valid_kind k.kind ≡ true) (or_err x corrupt_key)
    go (ok k) h = h.0
    go (err e) h = tt
    go panic h = absurd h

Sound-key :
    (buf : Bytes)
    → Sound 0
        (λ k. is_valid_kind k.kind ≡ true)
        (lift (or_err (decode_internal_key buf) corrupt_key))
Sound-key buf = Sound-lift (or_err (decode_internal_key buf) corrupt_key) (key-Safe buf)

Sound-word32 : Sound 0 (λ _. Unit) (reading read_uint32 truncated_edit)
Sound-word32 = Sound-reading 0 truncated_edit (Sound-mono 4 0 (omega arith) Sound-read_uint32)

Sound-word64 : Sound 0 (λ _. Unit) (reading read_uint64 truncated_edit)
Sound-word64 = Sound-reading 0 truncated_edit (Sound-mono 8 0 (omega arith) Sound-read_uint64)

Sound-read_length_prefixed_bytes : Sound 0 (λ _. Unit) read_length_prefixed_bytes
unfolding read_length_prefixed_bytes
Sound-read_length_prefixed_bytes = Sound-bind _ _ 0 0 Sound-word32 (λ n _.
    Sound-check (ltb max_length_prefixed_field n) edit_field_too_large 0 (λ _.
      Sound-reading 0 truncated_edit
        (Sound-weaken (λ _ _. tt) (Sound-mono n 0 (omega arith) (Sound-read_bytes n)))))

Sound-decode_deleted_file : Sound 0 (λ _. Unit) decode_deleted_file
unfolding decode_deleted_file
Sound-decode_deleted_file =
    Sound-bind _ _ 0 0 Sound-word32
      (λ level _. Sound-bind _ _ 0 0 Sound-word64 (λ file_id _. Sound-pure _ tt))

Sound-decode_added_file : Sound 0 HasValidKinds decode_added_file
unfolding decode_added_file
Sound-decode_added_file = Sound-bind _ _ 0 0 Sound-word32 (λ level _.
    Sound-bind _ _ 0 0 Sound-word64 (λ file_id _. Sound-bind _ _ 0 0 Sound-word64 (λ file_size _.
      Sound-bind _ _ 0 0 Sound-read_length_prefixed_bytes (λ smallest _.
        Sound-bind _ _ 0 0 Sound-read_length_prefixed_bytes (λ largest _.
          Sound-bind _ _ 0 0 (Sound-key smallest) (λ smallest_key h.
            Sound-bind _ _ 0 0 (Sound-key largest) (λ largest_key k. Sound-pure _ (h, k))))))))

module _ (edit : VersionEdit) (h : IsWellFormed edit) where
  Sound-decode_next_file_id : Sound 0 IsWellFormed (decode_next_file_id edit)
  unfolding decode_next_file_id
  Sound-decode_next_file_id = Sound-bind _ _ 0 0 Sound-word64 (λ v _. Sound-pure _ h)

  Sound-decode_last_sequence : Sound 0 IsWellFormed (decode_last_sequence edit)
  unfolding decode_last_sequence
  Sound-decode_last_sequence = Sound-bind _ _ 0 0 Sound-word64 (λ v _. Sound-pure _ h)

  Sound-decode_log_number : Sound 0 IsWellFormed (decode_log_number edit)
  unfolding decode_log_number
  Sound-decode_log_number = Sound-bind _ _ 0 0 Sound-word64 (λ v _. Sound-pure _ h)

  Sound-decode_deletion : Sound 0 IsWellFormed (decode_deletion edit)
  unfolding decode_deletion
  Sound-decode_deletion = Sound-bind _ _ 0 0 Sound-decode_deleted_file (λ d _. Sound-pure _ h)

  Sound-decode_addition : Sound 0 IsWellFormed (decode_addition edit)
  unfolding decode_addition
  Sound-decode_addition =
      Sound-bind _ _ 0 0 Sound-decode_added_file
        (λ f k. Sound-pure _ (All-append HasValidKinds edit.added_files (f ∷ []) h (k, tt)))

  Sound-decode_tag : (tag : ℕ) → Sound 0 IsWellFormed (decode_tag edit tag)
  unfolding decode_tag
  Sound-decode_tag tag = elim (Bool-cases (tag == tag_next_file_id)) [
    | inl a ↦ rw a Sound-decode_next_file_id
    | inr a ↦ elim (Bool-cases (tag == tag_last_sequence)) [
      | inl b ↦ rw (a, b) Sound-decode_last_sequence
      | inr b ↦ elim (Bool-cases (tag == tag_log_number)) [
        | inl c ↦ rw (a, b, c) Sound-decode_log_number
        | inr c ↦ elim (Bool-cases (tag == tag_delete_file)) [
          | inl d ↦ rw (a, b, c, d) Sound-decode_deletion
          | inr d ↦ elim (Bool-cases (tag == tag_add_file)) [
            | inl e ↦ rw (a, b, c, d, e) Sound-decode_addition
            | inr e ↦ rw (a, b, c, d, e) (Sound-lift (err unknown_tag) tt)
          ]
        ]
      ]
    ]
  ]

  Sound-decode_field : Sound 1 IsWellFormed (decode_field edit)
  unfolding decode_field
  Sound-decode_field =
      Sound-bind _ _ 1 0 (Sound-reading 1 truncated_edit Sound-read_byte)
        (λ tag _. Sound-decode_tag tag)

result-Safe :
    (r : ByteReader) (x : Result EditError (VersionEdit × ByteReader))
    → Safe (After 0 IsWellFormed r) x
    → Safe IsWellFormed (result x)
result-Safe r (ok (e, _)) h = h.0
result-Safe r (err e) h = tt
result-Safe r panic h = absurd h

-- On any bytes decoding an edit ends, with one of its errors or with an edit whose added files have
-- keys of a supported kind. It does not panic, and its loop needs no more rounds than bytes.
pub decode_version_edit-Safe : (buf : Bytes) → Safe IsWellFormed (decode_version_edit buf)
unfolding decode_version_edit new_byte_reader remaining
decode_version_edit-Safe buf =
    result-Safe (new_byte_reader buf)
      (while_remaining (length buf) decode_field empty_edit (new_byte_reader buf))
      (Sound-while_remaining decode_field Sound-decode_field (length buf) empty_edit
        (new_byte_reader buf) tt (omega arith) (omega arith))
