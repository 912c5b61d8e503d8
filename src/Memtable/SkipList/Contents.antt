-- ===== src/Memtable/SkipList/Contents.antt =====
-- What Put, Get and the iterator of a skip list do, as seen through the iterator.
use beachdb.Prelude.{
  ℕ, suc, ◌+◌, ◌≡◌, refl, sym, ◌∙◌, ap, arith, Bool, List, [], ◌∷◌, Bytes, ok, ◌>>=◌, length,
  Ordering,
}
use beachdb.Keys.{InternalKey, compare_keys}
use beachdb.Sstable.Block.{BlockEntry}
use beachdb.Memtable.{insert_entry, lookup}
use beachdb.Memtable.SkipList.{SkipList, Run, new_skip_list, put, get, node_count}
use beachdb.Memtable.SkipList.Towers.{Tower, places, entries_of}
use beachdb.Memtable.SkipList.Valid.{Links, IsValid, new_skip_list-Links}
use beachdb.Memtable.SkipList.Relink.{first}
use beachdb.Memtable.SkipList.Insert.{put-Links}
use beachdb.Memtable.SkipList.Get.{get-Links}
use beachdb.Memtable.SkipList.Iterator.{new_skip_list_iterator, seek_to_first, seek, collect}
use beachdb.Memtable.SkipList.Iterator.Collect.{moved, seek_to_first-Stands, collect-Stands}

-- What an iterator reads from SeekToFirst to the end.
unfoldable pub contents : SkipList → Run (List BlockEntry)
unfolding seek_to_first collect new_skip_list_iterator
contents sl = seek_to_first (new_skip_list_iterator sl 0) >>= collect (sl.length + 1)

-- What an iterator reads from Seek to the end.
unfoldable pub contents_from : Bytes → SkipList → Run (List BlockEntry)
unfolding seek collect new_skip_list_iterator
contents_from target sl = seek target (new_skip_list_iterator sl 0) >>= collect (sl.length + 1)

-- The entries from the first on that is not before the key.
unfoldable pub drop_before : InternalKey → List BlockEntry → List BlockEntry
drop_before key [] = []
drop_before key (e ∷ es) = elim (compare_keys e.key key) [
  | Ordering.lt ↦ drop_before key es
  | _ ↦ e ∷ es
]

pub length-entries_of : (ts : List Tower) → length (entries_of ts) ≡ length ts
length-entries_of [] = refl
length-entries_of (t ∷ ts) = ap suc (length-entries_of ts)

module _ (sl : SkipList) (ts : List Tower) (v : Links sl ts) where
  pub contents-Links : contents sl ≡ ok (entries_of ts)
  unfolding contents new_skip_list_iterator
  contents-Links =
      let it = new_skip_list_iterator sl 0 in
      let (run, s) = seek_to_first-Stands sl 0 ts v it refl (omega arith) in
      rw (run, ◌>>=◌)
        (collect-Stands sl 0 (sl.length + 1) (moved 0 it (first (places ts))) ts
          (omega (arith, v.counted)) s)

-- On a valid skip list Put returns a valid one, and an iterator then reads what it read before
-- with the new entry inserted in key order.
pub put-contents :
    (k : InternalKey) (v : Bytes) (sl : SkipList)
    → IsValid sl
    → (sl' : SkipList) × (es : List BlockEntry) × (put k v sl ≡ ok sl')
      × IsValid sl'
      × (contents sl ≡ ok es)
      × (contents sl' ≡ ok (insert_entry (record { key = k; value = v }) es))
put-contents k v sl (ts, w) =
    let (sl', ts', run, w', same) = put-Links k v sl ts w in
    (
      sl',
      entries_of ts,
      run,
      (ts', w'),
      contents-Links sl ts w,
      contents-Links sl' ts' w' ∙ ap ok same,
    )

-- On a valid skip list Get returns, and answers as a lookup does in the entries that an iterator
-- reads.
pub get-contents :
    (user_key : Bytes) (seqno : ℕ) (sl : SkipList)
    → IsValid sl
    → (es : List BlockEntry) × (contents sl ≡ ok es)
      × (get user_key seqno sl ≡ ok (lookup es user_key seqno))
get-contents user_key seqno sl (ts, v) =
    (entries_of ts, contents-Links sl ts v, get-Links sl user_key seqno ts v)

unfoldable pub put_all : List BlockEntry → SkipList → Run SkipList
put_all [] sl = ok sl
put_all (e ∷ es) sl = put e.key e.value sl >>= put_all es

abbrev pub insert_all : List BlockEntry → List BlockEntry → List BlockEntry
insert_all [] xs = xs
insert_all (e ∷ es) xs = insert_all es (insert_entry e xs)

pub put_all-Links :
    (es : List BlockEntry) (sl : SkipList) (ts : List Tower)
    → Links sl ts
    → (sl' : SkipList) × (ts' : List Tower) × (put_all es sl ≡ ok sl')
      × Links sl' ts'
      × (entries_of ts' ≡ insert_all es (entries_of ts))
unfolding put_all
put_all-Links [] sl ts v = (sl, ts, refl, v, refl)
put_all-Links (e ∷ es) sl ts v =
    let (sl', ts', run, v', same) = put-Links e.key e.value sl ts v in
    let (sl'', ts'', runs, v'', same') = put_all-Links es sl' ts' v' in
    (sl'', ts'', rw (run, ◌>>=◌) runs, v'', same' ∙ ap (insert_all es) same)

-- Whatever the random source draws, any sequence of Puts on a new skip list returns, and the
-- entries that an iterator then reads, and the length, are those of the entries inserted one by
-- one in key order.
pub put_all-contents :
    (draws : ℕ → Bool) (es : List BlockEntry)
    → (sl : SkipList) × (put_all es (new_skip_list draws) ≡ ok sl)
      × (contents sl ≡ ok (insert_all es []))
      × (node_count sl ≡ length (insert_all es []))
unfolding node_count
put_all-contents draws es =
    let (sl, ts, run, v, same) =
      put_all-Links es (new_skip_list draws) [] (new_skip_list-Links draws) in
    (
      sl,
      run,
      contents-Links sl ts v ∙ ap ok same,
      v.counted ∙ sym (length-entries_of ts) ∙ ap length same,
    )
