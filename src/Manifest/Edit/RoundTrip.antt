-- ===== src/Manifest/Edit/RoundTrip.antt =====
-- A version edit that is encoded and decoded is the same edit.
use beachdb.Prelude.{
  ℕ, ◌<◌, ◌≡◌, refl, arith, Bool, true, false, List, [], ◌∷◌, ◌++◌, append_assoc, append-nil,
  length, All, ok, subst,
}
use beachdb.Coding.{new_byte_reader}
use beachdb.Coding.Unread.{Unread-new_byte_reader}
use beachdb.Coding.Decoder.Loop.{Run, stop, round, Run-append, Run-one, while_remaining-Run}
use beachdb.Manifest.Edit.{
  FileMetadata, DeletedFile, VersionEdit, empty_edit, tag_next_file_id, tag_last_sequence,
  tag_log_number, write_counter_tag, write_deleted_file, write_added_file, write_deleted_files,
  write_added_files, encode_edit, decode_field, decode_version_edit, IsEncodableFile,
  IsEncodableDeletion, CounterFits, IsEncodable,
}
use beachdb.Manifest.Edit.Codec.{
  Consumes-next_file_id, Consumes-last_sequence, Consumes-log_number, Consumes-deletion,
  Consumes-addition,
}

-- A counter field, from an edit in which that counter is not set.
module _ (edit : VersionEdit) (v : ℕ) where
  Run-next_file_id :
      (has : Bool)
      → CounterFits has v
      → edit.has_next_file_id ≡ false
      → edit.next_file_id ≡ 0
      → Run decode_field edit
          (write_counter_tag tag_next_file_id has v)
          (record edit { has_next_file_id = has; next_file_id = v })
  unfolding write_counter_tag
  Run-next_file_id true fits p q = Run-one (omega arith) (Consumes-next_file_id edit v fits)
  Run-next_file_id false fits p q =
      subst (Run decode_field edit [])
        (let same : edit ≡ record edit { has_next_file_id = false; next_file_id = v } =
            ground arith in
          same)
        stop

  Run-last_sequence :
      (has : Bool)
      → CounterFits has v
      → edit.has_last_sequence ≡ false
      → edit.last_sequence ≡ 0
      → Run decode_field edit
          (write_counter_tag tag_last_sequence has v)
          (record edit { has_last_sequence = has; last_sequence = v })
  unfolding write_counter_tag
  Run-last_sequence true fits p q = Run-one (omega arith) (Consumes-last_sequence edit v fits)
  Run-last_sequence false fits p q =
      subst (Run decode_field edit [])
        (let same : edit ≡ record edit { has_last_sequence = false; last_sequence = v } =
            ground arith in
          same)
        stop

  Run-log_number :
      (has : Bool)
      → CounterFits has v
      → edit.has_log_number ≡ false
      → edit.log_number ≡ 0
      → Run decode_field edit
          (write_counter_tag tag_log_number has v)
          (record edit { has_log_number = has; log_number = v })
  unfolding write_counter_tag
  Run-log_number true fits p q = Run-one (omega arith) (Consumes-log_number edit v fits)
  Run-log_number false fits p q =
      subst (Run decode_field edit [])
        (let same : edit ≡ record edit { has_log_number = false; log_number = v } = ground arith in
          same)
        stop

write_deleted_file-pos : (d : DeletedFile) → 0 < length (write_deleted_file d)
unfolding write_deleted_file
write_deleted_file-pos d = omega arith

write_added_file-pos : (a : FileMetadata) → 0 < length (write_added_file a)
unfolding write_added_file
write_added_file-pos a = omega arith

Run-deletions :
    (edit : VersionEdit) (ds : List DeletedFile)
    → All IsEncodableDeletion ds
    → Run decode_field edit
        (write_deleted_files ds)
        (record edit { deleted_files = edit.deleted_files ++ ds })
unfolding write_deleted_files
Run-deletions edit [] fits = rw (append-nil edit.deleted_files) stop
Run-deletions edit (d ∷ ds) (fit, fits) =
    subst
      (λ (all : List DeletedFile).
        Run decode_field edit (write_deleted_file d ++ write_deleted_files ds)
          (record edit { deleted_files = all }))
      (append_assoc edit.deleted_files (d ∷ []) ds)
      (round (write_deleted_file-pos d) (Consumes-deletion edit d fit)
        (Run-deletions (record edit { deleted_files = edit.deleted_files ++ (d ∷ []) }) ds fits))

Run-additions :
    (edit : VersionEdit) (as' : List FileMetadata)
    → All IsEncodableFile as'
    → Run decode_field edit
        (write_added_files as')
        (record edit { added_files = edit.added_files ++ as' })
unfolding write_added_files
Run-additions edit [] fits = rw (append-nil edit.added_files) stop
Run-additions edit (a ∷ as') (fit, fits) =
    subst
      (λ (all : List FileMetadata).
        Run decode_field edit (write_added_file a ++ write_added_files as')
          (record edit { added_files = all }))
      (append_assoc edit.added_files (a ∷ []) as')
      (round (write_added_file-pos a) (Consumes-addition edit a fit)
        (Run-additions (record edit { added_files = edit.added_files ++ (a ∷ []) }) as' fits))

Run-encode_edit : (e : VersionEdit) → IsEncodable e → Run decode_field empty_edit (encode_edit e) e
unfolding encode_edit
Run-encode_edit e fits =
    Run-append
      (Run-next_file_id empty_edit e.next_file_id e.has_next_file_id fits.next_file_id refl refl)
      (Run-append
        (Run-last_sequence _ e.last_sequence e.has_last_sequence fits.last_sequence refl refl)
        (Run-append (Run-log_number _ e.log_number e.has_log_number fits.log_number refl refl) (
          Run-append (Run-deletions _ e.deleted_files fits.deleted_files)
            (Run-additions _ e.added_files fits.added_files))))

-- A version edit that is encoded and decoded is the same edit, if its fields are in the range of
-- their Go types, its keys are valid and not longer than the decoder accepts, and a counter whose
-- flag is off is 0.
pub decode_version_edit-encode_edit :
    (e : VersionEdit) → IsEncodable e → decode_version_edit (encode_edit e) ≡ ok e
unfolding decode_version_edit
decode_version_edit-encode_edit e fits =
    rw
      (while_remaining-Run decode_field (length (encode_edit e)) (new_byte_reader (encode_edit e))
        (Run-encode_edit e fits) (omega arith) (Unread-new_byte_reader (encode_edit e)))
      refl
