-- ===== src/Sstable/Index/Codec.antt =====
-- Reading back the index block.
use beachdb.Prelude.{
  ◌<◌, ◌≡◌, refl, arith, List, [], ◌∷◌, ◌++◌, append_assoc, append-nil, length, All, ok, or_err,
  subst, length-append, ==_iff,
}
use beachdb.Coding.{put_uint32, put_uint64, new_byte_reader}
use beachdb.Coding.Words.{length-put_uint32, uint32-put_uint32}
use beachdb.Coding.Unread.{Unread-new_byte_reader}
use beachdb.Coding.Decoder.Loop.{Run, stop, round, while_remaining-Run}
use beachdb.Coding.Decoder.Consumes.{
  Consumes, Consumes-lift, Consumes-reading, Consumes-bind, Consumes-map, Consumes-read_uint32,
  Consumes-read_uint64, Consumes-read_bytes,
}
use beachdb.Checksum.{crc32c, crc32c-IsU32}
use beachdb.Keys.{InternalKey, encode, decode_internal_key, IsValidKey}
use beachdb.Keys.Codec.{decode_internal_key-encode}
use beachdb.Sstable.Errors.{SstError, corrupt_index}
use beachdb.Sstable.Trailer.{long_enough, take-trailer, drop-trailer}
use beachdb.Sstable.Index.{
  IndexEntry, encode_index_entry, encode_index_entries, build_index_block, decode_index_entry,
  decode_index_entries, check_index, decode_index_block, IsEncodable,
}

key_decodes :
    (k : InternalKey) → IsValidKey k → or_err (decode_internal_key (encode k)) corrupt_index ≡ ok k
key_decodes k v = rw (decode_internal_key-encode k v) refl

Consumes-decode_index_entry :
    (entries : List IndexEntry) (e : IndexEntry)
    → IsEncodable e
    → Consumes (decode_index_entry entries) (encode_index_entry e) (entries ++ (e ∷ []))
unfolding decode_index_entry encode_index_entry
Consumes-decode_index_entry entries e fits =
    Consumes-bind _ _
      (Consumes-reading corrupt_index
        (Consumes-read_uint32 (length (encode e.last_key)) fits.key_size))
      (Consumes-bind _ _ (Consumes-reading corrupt_index (Consumes-read_bytes (encode e.last_key)))
        (Consumes-bind _ _ (Consumes-lift (key_decodes e.last_key fits.last_key)) (
          Consumes-bind _ _
            (Consumes-reading corrupt_index (Consumes-read_uint64 e.offset fits.offset))
            (Consumes-map _
              (λ s. entries ++ (record { last_key = e.last_key; offset = e.offset; size = s } ∷ []))
              (Consumes-reading corrupt_index (Consumes-read_uint32 e.size fits.size)) refl))))

encode_index_entry-pos : (e : IndexEntry) → 0 < length (encode_index_entry e)
unfolding encode_index_entry
encode_index_entry-pos e = omega (
  arith,
  length-append (put_uint32 (length (encode e.last_key)))
      (encode e.last_key ++ (put_uint64 e.offset ++ put_uint32 e.size)),
  length-put_uint32 (length (encode e.last_key)),
)

Run-index_entries :
    (done es : List IndexEntry)
    → All IsEncodable es
    → Run decode_index_entry done (encode_index_entries es) (done ++ es)
unfolding encode_index_entries
Run-index_entries done [] fits = rw (append-nil done) stop
Run-index_entries done (e ∷ es) (fit, fits) =
    subst
      (λ (all : List IndexEntry).
        Run decode_index_entry done (encode_index_entry e ++ encode_index_entries es) all)
      (append_assoc done (e ∷ []) es)
      (round (encode_index_entry-pos e) (Consumes-decode_index_entry done e fit)
        (Run-index_entries (done ++ (e ∷ [])) es fits))

decode_index_entries_lem :
    (es : List IndexEntry)
    → All IsEncodable es
    → decode_index_entries (encode_index_entries es) ≡ ok es
unfolding decode_index_entries
decode_index_entries_lem es fits =
    rw
      (while_remaining-Run decode_index_entry (length (encode_index_entries es))
        (new_byte_reader (encode_index_entries es)) (Run-index_entries [] es fits) (omega arith)
        (Unread-new_byte_reader (encode_index_entries es)))
      refl

-- Decoding an index block gives the entries that it was built from, in order, if their keys are
-- valid and their fields are in range.
pub decode_index_block-build_index_block :
    (es : List IndexEntry) → All IsEncodable es → decode_index_block (build_index_block es) ≡ ok es
unfolding decode_index_block build_index_block
decode_index_block-build_index_block es fits =
    let buf = encode_index_entries es in
    rw
      (
        long_enough buf (crc32c buf),
        drop-trailer buf (crc32c buf),
        uint32-put_uint32 {E = SstError} (crc32c buf) [] (crc32c-IsU32 buf),
        take-trailer buf (crc32c buf),
        check_index,
        (==_iff (crc32c buf) (crc32c buf)).1 refl,
      )
      (decode_index_entries_lem es fits)
