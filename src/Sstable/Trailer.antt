-- ===== src/Sstable/Trailer.antt =====
-- The checksum behind a block: where the payload ends and the word begins.
use beachdb.Prelude.{
  ℕ, ◌+◌, ◌-◌, ◌≡◌, ◌∙◌, ap, sym, arith, Bytes, [], ◌++◌, append-nil, length, take, drop,
  length-append, take-append_length, drop-append_length, false, ltb, le→ltb-false,
}
use beachdb.Coding.{put_uint32}
use beachdb.Coding.Words.{length-put_uint32}

module _ (payload : Bytes) (crc : ℕ) where
  abbrev raw : Bytes
  raw = payload ++ put_uint32 crc

  pub length-trailer : length (payload ++ put_uint32 crc) ≡ length payload + 4
  length-trailer = omega (arith, length-append payload (put_uint32 crc), length-put_uint32 crc)

  payload_end : length raw - 4 ≡ length payload
  payload_end = omega (arith, length-trailer)

  pub long_enough : ltb (length (payload ++ put_uint32 crc)) 4 ≡ false
  long_enough = le→ltb-false (length raw) 4 (omega (arith, length-trailer))

  pub take-trailer :
      take (length (payload ++ put_uint32 crc) - 4) (payload ++ put_uint32 crc) ≡ payload
  take-trailer =
      ap (λ (k : ℕ). take k raw) payload_end ∙ take-append_length payload (put_uint32 crc)

  pub drop-trailer :
      drop (length (payload ++ put_uint32 crc) - 4) (payload ++ put_uint32 crc)
      ≡ put_uint32 crc ++ []
  drop-trailer =
      ap (λ (k : ℕ). drop k raw) payload_end
      ∙ drop-append_length payload (put_uint32 crc)
      ∙ sym (append-nil (put_uint32 crc))
