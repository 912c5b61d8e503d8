-- ===== src/Sstable/Block/Codec.antt =====
-- Reading back the blocks that the builder wrote.
use beachdb.Prelude.{
  ◌<◌, ◌≡◌, refl, sym, ◌∙◌, arith, List, [], ◌∷◌, ◌++◌, Bytes, append_assoc, append-nil, length,
  All, ok, ◌>>=◌, or_err, subst, length-append, ==_iff,
}
use beachdb.Coding.{put_uint32, new_byte_reader}
use beachdb.Coding.Words.{length-put_uint32, uint32-put_uint32}
use beachdb.Coding.Unread.{Unread-new_byte_reader}
use beachdb.Coding.Decoder.Loop.{Run, stop, round, while_remaining-Run}
use beachdb.Coding.Decoder.Consumes.{
  Consumes, Consumes-lift, Consumes-reading, Consumes-bind, Consumes-map, Consumes-read_uint32,
  Consumes-read_bytes,
}
use beachdb.Checksum.{crc32c, crc32c-IsU32}
use beachdb.Keys.{InternalKey, encode, decode_internal_key, IsValidKey}
use beachdb.Keys.Codec.{decode_internal_key-encode}
use beachdb.Sstable.Errors.{SstError, corrupt_block}
use beachdb.Sstable.Trailer.{long_enough, take-trailer, drop-trailer}
use beachdb.Sstable.Block.{
  BlockEntry, check_block, verify_block_checksum, decode_entry, decode_block_entries, encode_entry,
  IsEncodable, BlockBuilder, new_block_builder, add, finish,
}

-- A payload behind its checksum: `verify_block_checksum` gives the payload back.
pub verify_block_checksum_lem :
    (payload : Bytes) → verify_block_checksum (payload ++ put_uint32 (crc32c payload)) ≡ ok payload
unfolding verify_block_checksum
verify_block_checksum_lem payload =
    rw
      (
        long_enough payload (crc32c payload),
        drop-trailer payload (crc32c payload),
        uint32-put_uint32 {E = SstError} (crc32c payload) [] (crc32c-IsU32 payload),
        take-trailer payload (crc32c payload),
        check_block,
        (==_iff (crc32c payload) (crc32c payload)).1 refl,
      )
      refl

key_decodes :
    (k : InternalKey) → IsValidKey k → or_err (decode_internal_key (encode k)) corrupt_block ≡ ok k
key_decodes k v = rw (decode_internal_key-encode k v) refl

abbrev pub encode_entry_of : BlockEntry → Bytes
encode_entry_of e = encode_entry e.key e.value

Consumes-decode_entry :
    (entries : List BlockEntry) (e : BlockEntry)
    → IsEncodable e
    → Consumes (decode_entry entries) (encode_entry_of e) (entries ++ (e ∷ []))
unfolding decode_entry encode_entry
Consumes-decode_entry entries e fits =
    Consumes-bind _ _
      (Consumes-reading corrupt_block (Consumes-read_uint32 (length (encode e.key)) fits.key_size))
      (Consumes-bind _ _ (Consumes-reading corrupt_block (Consumes-read_bytes (encode e.key))) (
        Consumes-bind _ _ (Consumes-lift (key_decodes e.key fits.key)) (
          Consumes-bind _ _
            (Consumes-reading corrupt_block (Consumes-read_uint32 (length e.value) fits.value_size))
            (Consumes-map _ (λ v. entries ++ (record { key = e.key; value = v } ∷ []))
              (Consumes-reading corrupt_block (Consumes-read_bytes e.value)) refl))))

-- The bytes of entries that were added one after the other.
abbrev pub encode_entries : List BlockEntry → Bytes
encode_entries [] = []
encode_entries (e ∷ es) = encode_entry_of e ++ encode_entries es

encode_entry-pos : (e : BlockEntry) → 0 < length (encode_entry_of e)
unfolding encode_entry
encode_entry-pos e = omega (
  arith,
  length-append (put_uint32 (length (encode e.key)))
      (encode e.key ++ (put_uint32 (length e.value) ++ e.value)),
  length-put_uint32 (length (encode e.key)),
)

Run-entries :
    (done es : List BlockEntry)
    → All IsEncodable es
    → Run decode_entry done (encode_entries es) (done ++ es)
Run-entries done [] fits = rw (append-nil done) stop
Run-entries done (e ∷ es) (fit, fits) =
    subst
      (λ (all : List BlockEntry).
        Run decode_entry done (encode_entry_of e ++ encode_entries es) all)
      (append_assoc done (e ∷ []) es)
      (round (encode_entry-pos e) (Consumes-decode_entry done e fit)
        (Run-entries (done ++ (e ∷ [])) es fits))

-- Decoding the entries of a block gives the entries that were added, in order.
pub decode_block_entries-encode_entries :
    (es : List BlockEntry) → All IsEncodable es → decode_block_entries (encode_entries es) ≡ ok es
unfolding decode_block_entries
decode_block_entries-encode_entries es fits =
    rw
      (while_remaining-Run decode_entry (length (encode_entries es))
        (new_byte_reader (encode_entries es)) (Run-entries [] es fits) (omega arith)
        (Unread-new_byte_reader (encode_entries es)))
      refl

abbrev pub add_all : List BlockEntry → BlockBuilder → BlockBuilder
add_all [] b = b
add_all (e ∷ es) b = add_all es (add e.key e.value b)

add_all-buf :
    (es : List BlockEntry) (b : BlockBuilder) → (add_all es b).buf ≡ b.buf ++ encode_entries es
add_all-buf [] b = sym (append-nil b.buf)
add_all-buf (e ∷ es) b =
    add_all-buf es (add e.key e.value b)
    ∙ unfold add in append_assoc b.buf (encode_entry e.key e.value) (encode_entries es)

-- A block that is built by adding entries to a new builder and finished passes its checksum and
-- decodes to the entries, in order, if their keys are valid and keys and values fit 32-bit
-- lengths.
pub finish-round_trip :
    (es : List BlockEntry)
    → All IsEncodable es
    → (verify_block_checksum (finish (add_all es new_block_builder)) >>= decode_block_entries)
      ≡ ok es
unfolding finish
finish-round_trip es fits =
    let buf : (add_all es new_block_builder).buf ≡ encode_entries es =
      add_all-buf es new_block_builder ∙ unfold new_block_builder in refl in
    rw (buf, verify_block_checksum_lem (encode_entries es), ◌>>=◌)
      (decode_block_entries-encode_entries es fits)
