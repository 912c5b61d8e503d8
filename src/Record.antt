-- ===== src/Record.antt =====
-- internal/record/record.go: the record envelope, which the WAL and the manifest share.
pub mod Codec
pub mod Total
mod Tests
use beachdb.Prelude.{
  ℕ, ◌+◌, ◌-◌, ◌*◌, ◌%◌, ◌^◌, ◌≤◌, ◌≡◌, Bool, true, false, ◌&&◌, not, List, [], ◌∷◌, ◌++◌, Bytes,
  length, take, drop,
}
use beachdb.Prelude.{
  Result, ok, err, panic, ◌>>=◌, ◌>>◌, return_if, index, ltb, ◌==◌, if◌then◌else◌,
}
use beachdb.Coding.{put_uint32, uint32, IsU32}
use beachdb.Checksum.{crc32c}

-- `string(a) == string(b)`, bytes.Equal.
unfoldable pub bytes_equal : Bytes → Bytes → Bool
bytes_equal [] [] = true
bytes_equal [] (b ∷ bs) = false
bytes_equal (a ∷ as') [] = false
bytes_equal (a ∷ as') (b ∷ bs) = a == b && bytes_equal as' bs

abbrev pub type_full : ℕ
type_full = 1

abbrev pub version : ℕ
version = 1

abbrev pub default_max_payload_size : ℕ
default_max_payload_size = 64 * 2 ^ 20

-- magic 8, version 1, type 1, length 4, checksum 4.
abbrev pub header_size : ℕ
header_size = 18

pub data RecordError : Type 0 where
  bad_header checksum_mismatch truncated bad_magic : RecordError
  unsupported_version unsupported_record_type record_too_large : RecordError

-- `new_format` has an error of its own, which is no sentinel.
pub data FormatError : Type 0 where
  bad_magic_size : FormatError

pub record Format : Type 0 where
  pub magic : Bytes
  pub max_payload_size : ℕ

unfoldable pub new_format : Bytes → ℕ → Result FormatError Format
new_format magic max_payload_size = do
  return_if (not (length magic == 8)) bad_magic_size
  ok (record {
    magic = magic;
    max_payload_size = if max_payload_size == 0 then default_max_payload_size else max_payload_size;
  })

pub record Header : Type 0 where
  pub record_type : ℕ
  pub payload_length : ℕ
  pub checksum : ℕ

unfoldable pub encode_header : Format → ℕ → ℕ → Bytes
encode_header f payload_len crc =
    f.magic ++ (version ∷ (type_full ∷ (put_uint32 payload_len ++ put_uint32 crc)))

-- `uint32(len(payload))` keeps the low 32 bits of the length, before the limit is tested.
unfoldable pub encode : Format → Bytes → Result RecordError Bytes
unfolding encode_header
encode f payload =
    let payload_len = length payload % 2 ^ 32 in
    if ltb f.max_payload_size payload_len
    then err record_too_large
    else ok (encode_header f payload_len (crc32c payload) ++ payload)

unfoldable pub decode_header : Format → Bytes → Result RecordError Header
decode_header f buf = do
  return_if (ltb (length buf) header_size) truncated
  return_if (ltb header_size (length buf)) bad_header
  return_if (not (bytes_equal (take 8 buf) f.magic)) bad_magic
  ver ← index buf 8
  return_if (not (ver == version)) unsupported_version
  record_type ← index buf 9
  return_if (not (record_type == type_full)) unsupported_record_type
  payload_len ← uint32 (take 4 (drop 10 buf))
  return_if (ltb f.max_payload_size payload_len) record_too_large
  crc ← uint32 (take 4 (drop 14 buf))
  ok (record { record_type = record_type; payload_length = payload_len; checksum = crc })

unfoldable pub validate_payload : Bytes → ℕ → Result RecordError (Unit {0})
validate_payload payload expected_checksum =
    return_if (not (crc32c payload == expected_checksum)) checksum_mismatch

-- What `new_format` gives: an eight-byte magic and a limit that is a uint32.
pub record IsFormat (f : Format) : Type 0 where
  pub magic : length f.magic ≡ 8
  pub max_payload_size : IsU32 f.max_payload_size
