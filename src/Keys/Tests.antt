-- ===== src/Keys/Tests.antt =====
-- Concrete keys, and the theorems at concrete inputs.
use beachdb.Prelude.{◌≡◌, ◌<◌, ◌↔◌, refl, arith, [], ◌∷◌, Ordering, ok}
use beachdb.Coding.{put_uint32, put_uint64}
use beachdb.Keys.{
  InternalKey, compare_bytes, compare_keys, encode, decode_internal_key, IsValidKey, is_valid_kind,
}
use beachdb.Keys.Order.{compare_keys_order, swap}
use beachdb.Keys.Codec.{decode_internal_key-encode}

abbrev newer : InternalKey
newer = record { user_key = 0x6b ∷ []; seqno = 9; kind = 1 }

abbrev older : InternalKey
older = record { user_key = 0x6b ∷ []; seqno = 4; kind = 2 }

abbrev later : InternalKey
later = record { user_key = 0x6b ∷ 0 ∷ []; seqno = 7; kind = 1 }

newer_first : compare_keys newer older ≡ Ordering.lt
unfolding compare_keys compare_bytes
newer_first = refl

prefix_first : compare_keys older later ≡ Ordering.lt
unfolding compare_keys compare_bytes
prefix_first = refl

encode-newer : encode newer ≡ 0x6b ∷ 0 ∷ 0 ∷ 0 ∷ 0 ∷ 0 ∷ 0 ∷ 0 ∷ 9 ∷ 1 ∷ []
unfolding encode put_uint64 put_uint32
encode-newer = refl

newer-IsValidKey : IsValidKey newer
unfolding is_valid_kind
newer-IsValidKey = record { seqno = omega arith; kind = refl }

decode_internal_key-encode_example : decode_internal_key (encode newer) ≡ ok newer
decode_internal_key-encode_example = decode_internal_key-encode newer newer-IsValidKey

compare_keys_order_example :
    (compare_keys older newer ≡ swap (compare_keys newer older))
    × ((compare_keys newer older ≡ Ordering.eq)
        ↔ ((newer.user_key ≡ older.user_key) × (newer.seqno ≡ older.seqno)))
    × (compare_keys newer older ≡ Ordering.lt
        → compare_keys older later ≡ Ordering.lt
        → compare_keys newer later ≡ Ordering.lt)
    × (newer.user_key ≡ older.user_key
        → (compare_keys newer older ≡ Ordering.lt) ↔ (older.seqno < newer.seqno))
compare_keys_order_example = compare_keys_order newer older later
