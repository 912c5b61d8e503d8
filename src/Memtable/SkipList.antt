-- ===== src/Memtable/SkipList.antt =====
-- internal/memtable/skiplist.go: the skip list. A node lives at an address of a heap, and its tower
-- is the list of its forward pointers; the head is the node at address 0. A dereference of nil, an
-- index outside a tower and a loop that is out of rounds are panics. The random source is the
-- answers to its draws, one after the other. The lock is left out: every method holds it throughout.
-- Counters count what is allocated, so they do not overflow.
pub mod Towers
pub mod Drawn
pub mod Valid
pub mod Search
pub mod Descent
pub mod Wired
pub mod Relink
pub mod Insert
pub mod Get
pub mod Iterator
pub mod Contents
pub mod Fulfils
mod Tests
use beachdb.Prelude.{
  ℕ, zero, suc, ◌+◌, ◌-◌, ◌*◌, Ordering, Bool, true, false, List, [], ◌∷◌, Bytes, Option, none,
  some, length, set, replicate, Result, ok, err, panic, ◌>>=◌, ◌>>◌, index, ltb, ◌==◌,
  if◌then◌else◌,
}
use beachdb.Keys.{InternalKey, compare_keys, kind_put}
use beachdb.Sstable.Block.{BlockEntry}
use beachdb.Memtable.{Lookup, missing, search_key, check_node}

abbrev pub max_level : ℕ
max_level = 12

abbrev pub head : ℕ
head = 0

pub record Node : Type 0 where
  pub key : InternalKey
  pub value : Bytes
  pub next : List (Option ℕ)

abbrev pub Heap : Type 0
Heap = ℕ → Option Node

-- `draws n` says whether draw number n of `Float64()` is at least 0.25.
pub record SkipList : Type 0 where
  pub draws : ℕ → Bool
  pub drawn : ℕ
  pub heap : Heap
  pub fresh : ℕ
  pub level : ℕ
  pub length : ℕ
  pub size : ℕ

-- A method has no errors: it returns or it panics.
abbrev pub Run : Type 0 → Type 0
Run A = Result ⊥ A

unfoldable pub mem_size : Node → ℕ
mem_size n = length n.key.user_key + length n.value + 8 + 1 + length n.next * 8 + 24

abbrev pub write : Heap → ℕ → Node → Heap
write h p n a = if a == p then some n else h a

unfoldable pub load : Heap → ℕ → Run Node
load h p = elim (h p) [ none ↦ panic | some n ↦ ok n ]

-- `node.next[level]`
unfoldable pub next_at : Heap → ℕ → ℕ → Run (Option ℕ)
unfolding load
next_at h p level = load h p >>= λ n. index n.next level

-- `node.next[level] = v`
unfoldable pub set_next : Heap → ℕ → ℕ → Option ℕ → Run Heap
unfolding load
set_next h p level v = do
  n ← load h p
  _ ← index {E = ⊥} n.next level
  ok (write h p (record n { next = set n.next level v }))

head_node : Node
head_node = record {
  key = record { user_key = []; seqno = 0; kind = 0 };
  value = [];
  next = replicate max_level none;
}

unfoldable pub new_skip_list : (ℕ → Bool) → SkipList
unfolding head_node
new_skip_list draws = record {
  draws = draws;
  drawn = 0;
  heap = write (λ _. none) head head_node;
  fresh = 1;
  level = 1;
  length = 0;
  size = 0;
}

-- `for level < sl.maxLevel`: the loop ends at the greatest level or at a draw that is not below
-- 0.25. Each round but the last gains a level, so as many rounds as levels are enough.
unfoldable pub random_level_from : ℕ → (ℕ → Bool) → ℕ → ℕ → Run (ℕ × ℕ)
random_level_from zero draws drawn level = panic
random_level_from (suc rounds) draws drawn level =
    let rest = random_level_from rounds draws (drawn + 1) (level + 1) in
    if ltb level max_level
    then if draws drawn then ok (level, drawn + 1) else rest
    else ok (level, drawn)

-- The level and the number of draws after it.
unfoldable pub random_level : SkipList → Run (ℕ × ℕ)
unfolding random_level_from
random_level sl = random_level_from max_level sl.draws sl.drawn 1

-- The loop along one level, to the last node with a smaller key.
unfoldable pub advance : ℕ → Heap → InternalKey → ℕ → ℕ → Run ℕ
unfolding next_at load
advance zero h key level current = panic
advance (suc fuel) h key level current = do
  next ← next_at h current level
  elim next [
    | none ↦ ok current
    | some n ↦ do
      node ← load h n
      elim (compare_keys node.key key) [ Ordering.lt ↦ advance fuel h key level n | _ ↦ ok current ]
  ]

-- The loop down the levels: the first argument is how many are left.
unfoldable pub descend : ℕ → ℕ → Heap → InternalKey → ℕ → List ℕ → Run (List ℕ)
unfolding advance
descend zero fuel h key current preds = ok preds
descend (suc level) fuel h key current preds = do
  last ← advance fuel h key level current
  descend level fuel h key last (set preds level last)

-- No level has more nodes than the list.
unfoldable pub find_predecessors : SkipList → InternalKey → Run (List ℕ)
unfolding descend
find_predecessors sl key =
    descend max_level (sl.length + 1) sl.heap key head (replicate max_level head)

-- `for i := sl.level; i < nodeLevel; i++ { preds[i] = sl.head }`
unfoldable pub raise : ℕ → ℕ → List ℕ → List ℕ
raise zero i preds = preds
raise (suc rounds) i preds = raise rounds (i + 1) (set preds i head)

-- `for i := range nodeLevel`
unfoldable pub wire : ℕ → ℕ → ℕ → List ℕ → Heap → Run Heap
unfolding next_at set_next
wire zero i new_node preds h = ok h
wire (suc rounds) i new_node preds h = do
  pred ← index preds i
  next ← next_at h pred i
  h' ← set_next h new_node i next
  h'' ← set_next h' pred i (some new_node)
  wire rounds (i + 1) new_node preds h''

-- The end of Put, for the level that was drawn.
unfoldable pub link : InternalKey → Bytes → List ℕ → ℕ → ℕ → SkipList → Run SkipList
unfolding raise wire mem_size
link key value preds node_level drawn sl =
    let new_node : Node = record { key = key; value = value; next = replicate node_level none } in
    do
      heap ←
          wire node_level 0 sl.fresh (raise (node_level - sl.level) sl.level preds)
            (write sl.heap sl.fresh new_node)
      ok (record {
        draws = sl.draws;
        drawn = drawn;
        heap = heap;
        fresh = sl.fresh + 1;
        level = sl.level + (node_level - sl.level);
        length = sl.length + 1;
        size = sl.size + mem_size new_node;
      })

unfoldable pub put : InternalKey → Bytes → SkipList → Run SkipList
unfolding find_predecessors random_level link
put key value sl = do
  preds ← find_predecessors sl key
  (node_level, drawn) ← random_level sl
  link key value preds node_level drawn sl

abbrev pub entry_of : Node → BlockEntry
entry_of n = record { key = n.key; value = n.value }

-- The node behind the last one with a smaller key, as Get and Seek look for it.
unfoldable pub first_at_least : SkipList → InternalKey → Run (Option ℕ)
unfolding find_predecessors next_at
first_at_least sl key = do
  preds ← find_predecessors sl key
  pred ← index preds 0
  next_at sl.heap pred 0

check_found : SkipList → Bytes → ℕ → Option ℕ → Run Lookup
unfolding load
check_found sl user_key seqno none = ok missing
check_found sl user_key seqno (some p) = do
  node ← load sl.heap p
  ok (check_node (entry_of node) user_key seqno)

unfoldable pub get : Bytes → ℕ → SkipList → Run Lookup
unfolding first_at_least check_found
get user_key seqno sl = do
  node ← first_at_least sl (search_key user_key seqno)
  check_found sl user_key seqno node

unfoldable pub node_count : SkipList → ℕ
node_count sl = sl.length

unfoldable pub is_empty : SkipList → Bool
is_empty sl = sl.length == 0
