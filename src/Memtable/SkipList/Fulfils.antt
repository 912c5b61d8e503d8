-- ===== src/Memtable/SkipList/Fulfils.antt =====
-- The skip list as the memtable of the engine, read through its iterator.
use beachdb.Prelude.{
  ℕ, ◌≡◌, sym, ◌∙◌, ap, subst, Bool, List, [], Bytes, ok, err, panic, length, Result,
}
use beachdb.Keys.{InternalKey}
use beachdb.Memtable.{Memtable, IsMemtable, insert_entry, lookup, missing}
use beachdb.Memtable.SkipList.{SkipList, new_skip_list, put, get, node_count}
use beachdb.Memtable.SkipList.Towers.{Tower, entries_of}
use beachdb.Memtable.SkipList.Valid.{Links, IsValid, new_skip_list-Links}
use beachdb.Memtable.SkipList.Insert.{put-Links}
use beachdb.Memtable.SkipList.Get.{get-Links}
use beachdb.Memtable.SkipList.Contents.{contents, contents-Links, length-entries_of}

-- A result that is no panic, as the callers of the interface get it.
abbrev pub returned {ℓ} : {A : Type ℓ} → Result ⊥ A → A → A
returned (ok a) b = a
returned (err _) b = b
returned panic b = b

-- What the iterator reads is what it returns.
read : (sl : SkipList) (ts : List Tower) → Links sl ts → returned (contents sl) [] ≡ entries_of ts
read sl ts w = ap (λ r. returned r []) (contents-Links sl ts w)

returned-put :
    (k : InternalKey) (v : Bytes) (sl : SkipList) → IsValid sl → IsValid (returned (put k v sl) sl)
returned-put k v sl (ts, w) =
    let (sl', ts', run, w', _) = put-Links k v sl ts w in
    subst IsValid (sym (ap (λ r. returned r sl) run)) (ts', w')

read_put :
    (k : InternalKey) (v : Bytes) (sl : SkipList)
    → IsValid sl
    → returned (contents (returned (put k v sl) sl)) []
      ≡ insert_entry (record { key = k; value = v }) (returned (contents sl) [])
read_put k v sl (ts, w) =
    let (sl', ts', run, w', same) = put-Links k v sl ts w in
    ap (λ r. returned (contents (returned r sl)) []) run
    ∙ read sl' ts' w'
    ∙ same
    ∙ ap (insert_entry (record { key = k; value = v })) (sym (read sl ts w))

read_get :
    (user_key : Bytes) (seqno : ℕ) (sl : SkipList)
    → IsValid sl
    → returned (get user_key seqno sl) missing ≡ lookup (returned (contents sl) []) user_key seqno
read_get user_key seqno sl (ts, w) =
    ap (λ r. returned r missing) (get-Links sl user_key seqno ts w)
    ∙ ap (λ es. lookup es user_key seqno) (sym (read sl ts w))

abbrev pub skip_memtable : (ℕ → Bool) → Memtable
skip_memtable draws = record {
  Mem = SkipList;
  new_mem = new_skip_list draws;
  put = λ k v sl. returned (put k v sl) sl;
  get = λ user_key seqno sl. returned (get user_key seqno sl) missing;
  entries = λ sl. returned (contents sl) [];
  size = λ sl. sl.size;
  len = node_count;
}

-- Whatever the random source draws, the skip list is a memtable as the engine relies on it: a new
-- one has no entries, Put inserts its entry in key order and keeps the invariant, Get answers as a
-- lookup in the entries does, and Len counts them.
pub skip_memtable-IsMemtable : (draws : ℕ → Bool) → IsMemtable (skip_memtable draws)
unfolding node_count
skip_memtable-IsMemtable draws = record {
  IsValid = IsValid;
  new_mem-IsValid = ([], new_skip_list-Links draws);
  put-IsValid = λ k v sl w. returned-put k v sl w;
  entries-new_mem =
      ap (λ r. returned r []) (contents-Links (new_skip_list draws) [] (new_skip_list-Links draws));
  entries-put = λ k v sl w. read_put k v sl w;
  get-entries = λ user_key seqno sl w. read_get user_key seqno sl w;
  len-entries =
      λ sl (ts, w). w.counted ∙ sym (length-entries_of ts) ∙ ap length (sym (read sl ts w));
}
