-- ===== src/Memtable/SkipList/Tests.antt =====
-- A skip list with three entries, put in any order, and the theorems at it.
use beachdb.Prelude.{
  ℕ, ◌+◌, ◌≡◌, refl, sym, ap, subst, Bool, true, false, List, [], ◌∷◌, ok, ◌==◌, length, ◌≤◌,
  if◌then◌else◌,
}
use beachdb.Keys.{compare_keys, compare_bytes}
use beachdb.Sstable.Block.{BlockEntry}
use beachdb.Record.{bytes_equal}
use beachdb.Memtable.{IsMemtable, insert_entry, lookup, found, check_node}
use beachdb.Memtable.SkipList.{
  SkipList, new_skip_list, put, get, node_count, is_empty, random_level, max_level,
}
use beachdb.Memtable.SkipList.Valid.{IsValid, new_skip_list-Links}
use beachdb.Memtable.SkipList.Iterator.{SkipListIterator, new_skip_list_iterator, close}
use beachdb.Memtable.SkipList.Iterator.Lock.{to_first, on, to, make_moves, session-readers}
use beachdb.Memtable.SkipList.Drawn.{IsDrawn, random_level_lem}
use beachdb.Memtable.SkipList.Contents.{
  contents, put-contents, get-contents, put_all, put_all-Links, insert_all, put_all-contents,
}
use beachdb.Memtable.SkipList.Fulfils.{returned, skip_memtable, skip_memtable-IsMemtable}

-- The second draw of the first node is the first to stop.
abbrev draws : ℕ → Bool
draws n = if n == 0 then false else true

abbrev entry : ℕ → ℕ → BlockEntry
entry k s = record { key = record { user_key = k ∷ []; seqno = s; kind = 1 }; value = s ∷ [] }

abbrev three : List BlockEntry
three = entry 5 1 ∷ entry 2 2 ∷ entry 5 3 ∷ []

abbrev filled : SkipList
filled = returned (put_all three (new_skip_list draws)) (new_skip_list draws)

filled-IsValid : IsValid filled
filled-IsValid =
    let (sl, ts, run, v, _) =
      put_all-Links three (new_skip_list draws) [] (new_skip_list-Links draws) in
    subst IsValid (sym (ap (λ r. returned r (new_skip_list draws)) run)) (ts, v)

contents-filled : contents filled ≡ ok (entry 2 2 ∷ entry 5 3 ∷ entry 5 1 ∷ [])
unfolding put_all new_skip_list put contents compare_keys compare_bytes
contents-filled = refl

level-filled : ◌≡◌ {A = ℕ} filled.level 2
unfolding put_all new_skip_list put compare_keys compare_bytes
level-filled = refl

get-filled : get (5 ∷ []) 2 filled ≡ ok (found (1 ∷ []))
unfolding put_all new_skip_list put get check_node bytes_equal compare_keys compare_bytes
get-filled = refl

is_empty-filled : is_empty filled ≡ false
unfolding put_all new_skip_list put is_empty compare_keys compare_bytes
is_empty-filled = refl

put-contents_example :
    (sl' : SkipList) × (es : List BlockEntry) × (put (entry 4 4).key (4 ∷ []) filled ≡ ok sl')
    × IsValid sl'
    × (contents filled ≡ ok es)
    × (contents sl' ≡ ok (insert_entry (entry 4 4) es))
put-contents_example = put-contents (entry 4 4).key (4 ∷ []) filled filled-IsValid

get-contents_example :
    (es : List BlockEntry) × (contents filled ≡ ok es)
    × (get (5 ∷ []) 2 filled ≡ ok (lookup es (5 ∷ []) 2))
get-contents_example = get-contents (5 ∷ []) 2 filled filled-IsValid

put_all-contents_example :
    (sl : SkipList) × (put_all three (new_skip_list draws) ≡ ok sl)
    × (contents sl ≡ ok (insert_all three []))
    × (node_count sl ≡ length (insert_all three []))
put_all-contents_example = put_all-contents draws three

random_level_lem_example :
    (res : ℕ × ℕ) × (random_level filled ≡ ok res)
    × (1 ≤ res.0)
    × (res.0 ≤ max_level)
    × IsDrawn filled.draws filled.drawn 1 res
random_level_lem_example = random_level_lem filled

skip_memtable-IsMemtable_example : IsMemtable (skip_memtable draws)
skip_memtable-IsMemtable_example = skip_memtable-IsMemtable draws

session-readers_example :
    (it : SkipListIterator) × (it' : SkipListIterator) × (make_moves
        (to_first ∷ on ∷ to (5 ∷ []) ∷ [])
        (new_skip_list_iterator filled 3)
      ≡ ok it)
    × (it.readers ≡ 3 + (if it.locked then 1 else 0))
    × (close it ≡ ok it')
    × (it'.readers ≡ 3)
    × (it'.locked ≡ false)
session-readers_example = session-readers filled 3 (to_first ∷ on ∷ to (5 ∷ []) ∷ []) filled-IsValid
