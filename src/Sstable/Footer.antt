-- ===== src/Sstable/Footer.antt =====
-- internal/sstable/footer.go: the forty bytes at the end of a table file.
pub mod Codec
use beachdb.Prelude.{
  ℕ, ◌+◌, ◌≡◌, Bool, not, List, [], ◌∷◌, ◌++◌, Bytes, length, take, drop, Result, ok, err, ◌>>=◌,
  ◌>>◌, return_if, ◌==◌,
}
use beachdb.Coding.{put_uint32, put_uint64, uint32, uint64, IsU32, IsU64}
use beachdb.Checksum.{crc32c}
use beachdb.Record.{bytes_equal}
use beachdb.Sstable.Errors.{SstError, corrupt_footer, bad_magic, unsupported_version}

-- BEACHSST
abbrev pub sst_magic : Bytes
sst_magic = 0x42 ∷ 0x45 ∷ 0x41 ∷ 0x43 ∷ 0x48 ∷ 0x53 ∷ 0x53 ∷ 0x54 ∷ []

abbrev pub sst_version : ℕ
sst_version = 1

abbrev pub footer_size : ℕ
footer_size = 40

-- The leading bytes that the checksum covers.
abbrev pub checksum_input_size : ℕ
checksum_input_size = 36

pub record Footer : Type 0 where
  pub index_offset : ℕ
  pub index_size : ℕ
  pub data_block_count : ℕ
  pub entry_count : ℕ

unfoldable pub encode_fields : Footer → Bytes
encode_fields f =
    sst_magic
    ++ (put_uint32 sst_version
        ++ (put_uint64 f.index_offset
            ++ (put_uint32 f.index_size
                ++ (put_uint32 f.data_block_count ++ put_uint64 f.entry_count))))

unfoldable pub encode_footer : Footer → Bytes
unfolding encode_fields
encode_footer f = encode_fields f ++ put_uint32 (crc32c (encode_fields f))

unfoldable pub decode_footer : Bytes → Result SstError Footer
decode_footer buf = do
  return_if (not (length buf == footer_size)) corrupt_footer
  return_if (not (bytes_equal (take 8 buf) sst_magic)) bad_magic
  version ← uint32 (take 4 (drop 8 buf))
  return_if (not (version == sst_version)) unsupported_version
  stored ← uint32 (take 4 (drop 36 buf))
  return_if (not (stored == crc32c (take checksum_input_size buf))) corrupt_footer
  index_offset ← uint64 (take 8 (drop 12 buf))
  index_size ← uint32 (take 4 (drop 20 buf))
  data_block_count ← uint32 (take 4 (drop 24 buf))
  entry_count ← uint64 (take 8 (drop 28 buf))
  ok (record {
    index_offset = index_offset;
    index_size = index_size;
    data_block_count = data_block_count;
    entry_count = entry_count;
  })

-- The ranges of the fields' Go types.
pub record IsFooter (f : Footer) : Type 0 where
  pub index_offset : IsU64 f.index_offset
  pub index_size : IsU32 f.index_size
  pub data_block_count : IsU32 f.data_block_count
  pub entry_count : IsU64 f.entry_count
