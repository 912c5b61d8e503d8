-- ===== src/Sstable/Block.antt =====
-- internal/sstable/block.go: data blocks.
pub mod Codec
pub mod Total
use beachdb.Prelude.{
  ℕ, zero, suc, ◌+◌, ◌-◌, ◌^◌, ◌≡◌, Bool, true, false, not, List, [], ◌∷◌, ◌++◌, Bytes, length,
  take, drop,
}
use beachdb.Prelude.{Result, ok, err, panic, return_if, or_err, ltb, ◌==◌, if◌then◌else◌}
use beachdb.Coding.{put_uint32, uint32, IsU32, new_byte_reader, ByteReader, read_uint32, read_bytes}
use beachdb.Coding.Decoder.{Decoder, pure, lift, reading, ◌>>=◌, while_remaining}
use beachdb.Checksum.{crc32c}
use beachdb.Keys.{InternalKey, encode, decode_internal_key, IsValidKey}
use beachdb.Sstable.Errors.{SstError, corrupt_block, block_checksum_mismatch}

abbrev pub checksum_size : ℕ
checksum_size = 4

pub record BlockEntry : Type 0 where
  pub key : InternalKey
  pub value : Bytes

check_block : Bytes → ℕ → Result SstError Bytes
check_block payload stored =
    if stored == crc32c payload then ok payload else err block_checksum_mismatch

unfoldable pub verify_block_checksum : Bytes → Result SstError Bytes
unfolding check_block
verify_block_checksum raw =
    if ltb (length raw) checksum_size
    then err corrupt_block
    else elim (uint32 {E = SstError} (drop (length raw - checksum_size) raw)) [
      | ok stored ↦ check_block (take (length raw - checksum_size) raw) stored
      | err e ↦ err e
      | panic ↦ panic
    ]

-- One round of `for br.Remaining() > 0`.
pub decode_entry : List BlockEntry → Decoder SstError (List BlockEntry)
decode_entry entries = do
  key_len ← reading read_uint32 corrupt_block
  key_bytes ← reading (read_bytes key_len) corrupt_block
  key ← lift (or_err (decode_internal_key key_bytes) corrupt_block)
  value_len ← reading read_uint32 corrupt_block
  value_bytes ← reading (read_bytes value_len) corrupt_block
  pure (entries ++ (record { key = key; value = value_bytes } ∷ []))

abbrev pub result : {A : Type 0} → Result SstError (A × ByteReader) → Result SstError A
result (ok (a, _)) = ok a
result (err e) = err e
result panic = panic

unfoldable pub decode_block_entries : Bytes → Result SstError (List BlockEntry)
unfolding decode_entry while_remaining
decode_block_entries payload =
    result (while_remaining (length payload) decode_entry [] (new_byte_reader payload))

pub record BlockBuilder : Type 0 where
  pub buf : Bytes
  pub entry_count : ℕ
  pub first_key : InternalKey
  pub last_key : InternalKey
  pub has_entries : Bool

-- `keys.InternalKey{}`
abbrev pub zero_key : InternalKey
zero_key = record { user_key = []; seqno = 0; kind = 0 }

unfoldable pub new_block_builder : BlockBuilder
new_block_builder = record {
  buf = [];
  entry_count = 0;
  first_key = zero_key;
  last_key = zero_key;
  has_entries = false;
}

unfoldable pub is_empty : BlockBuilder → Bool
is_empty b = not b.has_entries

unfoldable pub size : BlockBuilder → ℕ
size b = length b.buf

-- `[internal_key_len:4][internal_key_bytes][value_len:4][value_bytes]`
unfoldable pub encode_entry : InternalKey → Bytes → Bytes
encode_entry key value =
    put_uint32 (length (encode key)) ++ (encode key ++ (put_uint32 (length value) ++ value))

unfoldable pub add : InternalKey → Bytes → BlockBuilder → BlockBuilder
unfolding encode_entry
add key value b = record {
  buf = b.buf ++ encode_entry key value;
  entry_count = b.entry_count + 1;
  first_key = if b.has_entries then b.first_key else key;
  last_key = key;
  has_entries = true;
}

unfoldable pub finish : BlockBuilder → Bytes
finish b = b.buf ++ put_uint32 (crc32c b.buf)

unfoldable pub reset : BlockBuilder → BlockBuilder
reset b = record {
  buf = [];
  entry_count = 0;
  first_key = zero_key;
  last_key = zero_key;
  has_entries = false;
}

unfoldable pub encoded_entry_size : InternalKey → Bytes → ℕ
encoded_entry_size key value = 4 + length key.user_key + 9 + 4 + length value

-- An entry whose lengths fit the 32-bit fields.
pub record IsEncodable (e : BlockEntry) : Type 0 where
  pub key : IsValidKey e.key
  pub key_size : IsU32 (length (encode e.key))
  pub value_size : IsU32 (length e.value)
