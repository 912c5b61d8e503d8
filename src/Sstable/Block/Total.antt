-- ===== src/Sstable/Block/Total.antt =====
-- Decoding a block whose bytes may be anything.
use beachdb.Prelude.{
  ℕ, ◌+◌, ◌≡◌, arith, true, List, [], Bytes, length, All, All-append, Result, ok, err, panic, Safe,
  or_err,
}
use beachdb.Coding.{new_byte_reader, remaining, ByteReader, read_uint32, read_bytes}
use beachdb.Coding.Decoder.{reading, while_remaining}
use beachdb.Coding.Decoder.Sound.{
  Sound, After, Sound-pure, Sound-lift, Sound-mono, Sound-reading, Sound-bind, Sound-weaken,
  Sound-read_uint32, Sound-read_bytes, Sound-while_remaining,
}
use beachdb.Keys.{InternalKey, KeyError, decode_internal_key, is_valid_kind}
use beachdb.Keys.Codec.{decode_internal_key-Safe}
use beachdb.Sstable.Errors.{SstError, corrupt_block}
use beachdb.Sstable.Block.{BlockEntry, decode_entry, decode_block_entries, result}

abbrev pub HasValidKind : BlockEntry → Type 0
HasValidKind e = is_valid_kind e.key.kind ≡ true

key-Safe :
    (buf : Bytes)
    → Safe (λ k. is_valid_kind k.kind ≡ true) (or_err (decode_internal_key buf) corrupt_block)
key-Safe buf = go (decode_internal_key buf) (decode_internal_key-Safe buf)
  where
    go :
        (x : Result KeyError InternalKey)
        → Safe (λ k. (is_valid_kind k.kind ≡ true) × (length buf ≡ length k.user_key + 9)) x
        → Safe (λ k. is_valid_kind k.kind ≡ true) (or_err x corrupt_block)
    go (ok k) h = h.0
    go (err e) h = tt
    go panic h = absurd h

Sound-length : Sound 4 (λ _. Unit) (reading read_uint32 corrupt_block)
Sound-length = Sound-reading 4 corrupt_block Sound-read_uint32

Sound-bytes : (n : ℕ) → Sound 0 (λ _. Unit) (reading (read_bytes n) corrupt_block)
Sound-bytes n =
    Sound-reading 0 corrupt_block
      (Sound-weaken (λ _ _. tt) (Sound-mono n 0 (omega arith) (Sound-read_bytes n)))

Sound-decode_entry :
    (entries : List BlockEntry)
    → All HasValidKind entries
    → Sound 1 (All HasValidKind) (decode_entry entries)
unfolding decode_entry
Sound-decode_entry entries h = Sound-mono 4 1 (omega arith) (
    Sound-bind _ _ 4 0 Sound-length (λ n _. Sound-bind _ _ 0 0 (Sound-bytes n) (λ key_bytes _.
      Sound-bind _ _ 0 0
        (Sound-lift (or_err (decode_internal_key key_bytes) corrupt_block) (key-Safe key_bytes))
        (λ key valid. Sound-bind _ _ 0 0 (Sound-mono 4 0 (omega arith) Sound-length) (λ m _.
          Sound-bind _ _ 0 0 (Sound-bytes m)
            (λ value _. Sound-pure _ (All-append HasValidKind entries _ h (valid, tt))))))))

result-Safe :
    (r : ByteReader) (x : Result SstError (List BlockEntry × ByteReader))
    → Safe (After 0 (All HasValidKind) r) x
    → Safe (All HasValidKind) (result x)
result-Safe r (ok (es, _)) h = h.0
result-Safe r (err e) h = tt
result-Safe r panic h = absurd h

-- On any bytes decoding the entries of a block ends, with an error or with entries whose kinds are
-- supported. It does not panic, and its loop needs no more rounds than bytes.
pub decode_block_entries-Safe :
    (payload : Bytes) → Safe (All HasValidKind) (decode_block_entries payload)
unfolding decode_block_entries new_byte_reader remaining
decode_block_entries-Safe payload =
    result-Safe (new_byte_reader payload)
      (while_remaining (length payload) decode_entry [] (new_byte_reader payload))
      (Sound-while_remaining decode_entry Sound-decode_entry (length payload) []
        (new_byte_reader payload) tt (omega arith) (omega arith))
