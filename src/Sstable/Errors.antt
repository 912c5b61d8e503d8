-- ===== src/Sstable/Errors.antt =====
-- internal/sstable/errors.go: the sentinel errors.
pub data SstError : Type 0 where
  nil_file file_too_small reader_closed key_not_found key_deleted : SstError
  writer_closed invalid_block_size out_of_order_key : SstError
  corrupt_block block_checksum_mismatch : SstError
  corrupt_index index_checksum_mismatch : SstError
  corrupt_footer bad_magic unsupported_version : SstError
  invalid_block_index iterator_closed : SstError
