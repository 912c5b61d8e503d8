-- ===== src/Sstable/Footer/Codec.antt =====
-- Reading back a footer, and any bytes at all as a footer.
use beachdb.Prelude.{◌≡◌, refl, arith, [], length, ok, ==_iff}
use beachdb.Coding.{put_uint32, put_uint64}
use beachdb.Coding.Words.{uint32-put_uint32, uint64-put_uint64}
use beachdb.Checksum.{crc32c, crc32c-IsU32}
use beachdb.Record.{bytes_equal}
use beachdb.Sstable.Errors.{SstError}
use beachdb.Sstable.Footer.{
  Footer, IsFooter, footer_size, sst_version, encode_fields, encode_footer, decode_footer,
}

pub length-encode_footer : (f : Footer) → length (encode_footer f) ≡ footer_size
unfolding encode_footer put_uint32 put_uint64
length-encode_footer f = refl

-- Decoding the encoding of a footer whose fields are in the range of their Go types gives the
-- footer back.
pub decode_footer-encode_footer : (f : Footer) → IsFooter f → decode_footer (encode_footer f) ≡ ok f
unfolding decode_footer encode_footer put_uint32 put_uint64 bytes_equal
decode_footer-encode_footer f good =
    let crc = crc32c (encode_fields f) in
    rw
      (
        uint32-put_uint32 {E = SstError} sst_version [] (omega arith),
        uint32-put_uint32 {E = SstError} crc [] (crc32c-IsU32 (encode_fields f)),
        (==_iff crc crc).1 refl,
        uint64-put_uint64 {E = SstError} f.index_offset [] good.index_offset,
        uint32-put_uint32 {E = SstError} f.index_size [] good.index_size,
        uint32-put_uint32 {E = SstError} f.data_block_count [] good.data_block_count,
        uint64-put_uint64 {E = SstError} f.entry_count [] good.entry_count,
      )
      refl
