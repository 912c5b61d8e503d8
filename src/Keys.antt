-- ===== src/Keys.antt =====
-- internal/keys/keys.go: the internal key, its order and its encoding.
pub mod Order
pub mod Codec
mod Tests
use beachdb.Prelude.{
  ℕ, ◌+◌, ◌-◌, ◌≡◌, compare, Ordering, Bool, true, false, ◌||◌, List, [], ◌∷◌, ◌++◌, Bytes, length,
  take, drop,
}
use beachdb.Prelude.{
  Result, ok, err, panic, ◌>>=◌, ◌>>◌, return_if, index, ltb, ◌==◌, if◌then◌else◌, not,
}
use beachdb.Coding.{put_uint64, uint64, IsU64, IsByte}

abbrev pub kind_put : ℕ
kind_put = 1

abbrev pub kind_delete : ℕ
kind_delete = 2

pub record InternalKey : Type 0 where
  pub user_key : Bytes
  pub seqno : ℕ
  pub kind : ℕ

unfoldable pub is_valid_kind : ℕ → Bool
is_valid_kind kind = kind == kind_put || kind == kind_delete

-- What `elim` does on an `Ordering` that is not `eq`.
abbrev pub then_compare : Ordering → Ordering → Ordering
then_compare Ordering.eq next = next
then_compare Ordering.lt next = Ordering.lt
then_compare Ordering.gt next = Ordering.gt

-- bytes.Compare, lexicographic.
unfoldable pub compare_bytes : Bytes → Bytes → Ordering
compare_bytes [] [] = Ordering.eq
compare_bytes [] (b ∷ bs) = Ordering.lt
compare_bytes (a ∷ as') [] = Ordering.gt
compare_bytes (a ∷ as') (b ∷ bs) = then_compare (compare a b) (compare_bytes as' bs)

-- -1, 0 and 1 are `lt`, `eq` and `gt`. A larger seqno is newer and sorts first.
unfoldable pub compare_keys : InternalKey → InternalKey → Ordering
compare_keys k other = elim (compare_bytes k.user_key other.user_key) [
  | Ordering.lt ↦ Ordering.lt
  | Ordering.gt ↦ Ordering.gt
  | Ordering.eq ↦
      if ltb other.seqno k.seqno
      then Ordering.lt
      else if ltb k.seqno other.seqno
      then Ordering.gt
      else Ordering.eq
]

-- `[userKey][seqno:8][kind:1]`
unfoldable pub encode : InternalKey → Bytes
encode k = k.user_key ++ (put_uint64 k.seqno ++ (k.kind ∷ []))

pub data KeyError : Type 0 where
  corrupt_internal_key : KeyError

unfoldable pub decode_internal_key : Bytes → Result KeyError InternalKey
unfolding is_valid_kind
decode_internal_key buf = do
  return_if (ltb (length buf) 9) corrupt_internal_key
  let n = length buf
  kind ← index buf (n - 1)
  return_if (not (is_valid_kind kind)) corrupt_internal_key
  seqno ← uint64 (take 8 (drop (n - 9) buf))
  ok (record { user_key = take (n - 9) buf; seqno = seqno; kind = kind })

-- The ranges of the fields' Go types, and the kinds that the encoding supports.
pub record IsValidKey (k : InternalKey) : Type 0 where
  pub seqno : IsU64 k.seqno
  pub kind : is_valid_kind k.kind ≡ true
