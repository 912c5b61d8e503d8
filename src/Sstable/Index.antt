-- ===== src/Sstable/Index.antt =====
-- internal/sstable/index.go: the index block, an entry for each data block.
pub mod Codec
use beachdb.Prelude.{
  ℕ, zero, suc, ◌+◌, ◌-◌, ◌^◌, ◌≡◌, List, [], ◌∷◌, ◌++◌, Bytes, length, take, drop,
}
use beachdb.Prelude.{Result, ok, err, panic, or_err, ltb, ◌==◌, if◌then◌else◌}
use beachdb.Coding.{
  put_uint32, put_uint64, uint32, IsU32, IsU64, new_byte_reader, ByteReader, read_uint32,
  read_uint64, read_bytes,
}
use beachdb.Coding.Decoder.{Decoder, pure, lift, reading, ◌>>=◌, while_remaining}
use beachdb.Checksum.{crc32c}
use beachdb.Keys.{InternalKey, encode, decode_internal_key, IsValidKey}
use beachdb.Sstable.Errors.{SstError, corrupt_index, index_checksum_mismatch}
use beachdb.Sstable.Block.{checksum_size}

pub record IndexEntry : Type 0 where
  pub last_key : InternalKey
  pub offset : ℕ
  pub size : ℕ

unfoldable pub encode_index_entry : IndexEntry → Bytes
encode_index_entry e =
    put_uint32 (length (encode e.last_key))
    ++ (encode e.last_key ++ (put_uint64 e.offset ++ put_uint32 e.size))

unfoldable pub encode_index_entries : List IndexEntry → Bytes
unfolding encode_index_entry
encode_index_entries [] = []
encode_index_entries (e ∷ es) = encode_index_entry e ++ encode_index_entries es

unfoldable pub build_index_block : List IndexEntry → Bytes
unfolding encode_index_entries
build_index_block entries = let buf = encode_index_entries entries in buf ++ put_uint32 (crc32c buf)

-- One round of `for br.Remaining() > 0`.
pub decode_index_entry : List IndexEntry → Decoder SstError (List IndexEntry)
decode_index_entry entries = do
  key_len ← reading read_uint32 corrupt_index
  key_bytes ← reading (read_bytes key_len) corrupt_index
  key ← lift (or_err (decode_internal_key key_bytes) corrupt_index)
  offset ← reading read_uint64 corrupt_index
  size ← reading read_uint32 corrupt_index
  pure (entries ++ (record { last_key = key; offset = offset; size = size } ∷ []))

abbrev pub result : {A : Type 0} → Result SstError (A × ByteReader) → Result SstError A
result (ok (a, _)) = ok a
result (err e) = err e
result panic = panic

decode_index_entries : Bytes → Result SstError (List IndexEntry)
unfolding decode_index_entry while_remaining
decode_index_entries buf =
    result (while_remaining (length buf) decode_index_entry [] (new_byte_reader buf))

check_index : Bytes → ℕ → Result SstError (List IndexEntry)
unfolding decode_index_entries
check_index buf expected =
    if crc32c buf == expected then decode_index_entries buf else err index_checksum_mismatch

unfoldable pub decode_index_block : Bytes → Result SstError (List IndexEntry)
unfolding check_index
decode_index_block payload =
    if ltb (length payload) checksum_size
    then err corrupt_index
    else elim (uint32 {E = SstError} (drop (length payload - checksum_size) payload)) [
      | ok expected ↦ check_index (take (length payload - checksum_size) payload) expected
      | err e ↦ err e
      | panic ↦ panic
    ]

pub record IsEncodable (e : IndexEntry) : Type 0 where
  pub last_key : IsValidKey e.last_key
  pub key_size : IsU32 (length (encode e.last_key))
  pub offset : IsU64 e.offset
  pub size : IsU32 e.size
