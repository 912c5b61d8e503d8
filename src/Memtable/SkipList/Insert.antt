-- ===== src/Memtable/SkipList/Insert.antt =====
-- Put on a valid skip list: it does not panic, it keeps the list valid, and the new node stands
-- behind the nodes with a smaller key, whatever level was drawn.
use beachdb.Prelude.{
  ℕ, zero, suc, ◌+◌, ◌-◌, ◌≡◌, ◌≢◌, refl, sym, ◌∙◌, ap, subst, arith, List, [], ◌∷◌, ◌++◌, Option,
  none, Bytes, All, All-map, All-append, All-left, All-right, length, length-append, replicate, ok,
  ◌>>=◌, ◌≤◌, ◌<◌,
}
use beachdb.Keys.{InternalKey}
use beachdb.Memtable.{insert_entry}
use beachdb.Memtable.Sorted.{IsSorted, insert_entry-IsSorted}
use beachdb.Memtable.SkipList.{SkipList, Node, Heap, head, max_level, raise, link, put, mem_size}
use beachdb.Memtable.SkipList.Towers
use beachdb.Memtable.SkipList.Towers.{Tower, places, entries_of, at_level, last, Chain, Distinct}
use beachdb.Memtable.SkipList.Wired.{entry_at, Wired, wire-Wired, write_same, entry_at-some}
use beachdb.Memtable.SkipList.Search.{IsBefore, IsBehind}
use beachdb.Memtable.SkipList.Descent.{HasPreds, raise-HasPreds}
use beachdb.Memtable.SkipList.Drawn.{random_level_lem}
use beachdb.Memtable.SkipList.Valid.{Links, split, entries_of-insert, sizes}
use beachdb.Memtable.SkipList.Relink.{
  new_tower, new_node, start, pred, succ, start-IsReady, start_entry, Chain-after,
  find_predecessors-HasPreds,
}

length-replicate : {A : Type 0} (n : ℕ) (a : A) → length (replicate n a) ≡ n
length-replicate zero a = refl
length-replicate (suc n) a = ap suc (length-replicate n a)

-- The skip list around the heap that is wired.
abbrev after : SkipList → ℕ → ℕ → ℕ → Heap → SkipList
after sl node_level drawn grown heap = record {
  draws = sl.draws;
  drawn = drawn;
  heap = heap;
  fresh = sl.fresh + 1;
  level = sl.level + (node_level - sl.level);
  length = sl.length + 1;
  size = sl.size + grown;
}

module _ (sl : SkipList) (key : InternalKey) (value : Bytes) (ps as' : List Tower)
    (v : Links sl (ps ++ as')) (before : All (IsBefore sl.heap key) ps)
    (behind : All (IsBehind sl.heap key) as') (node_level drawn : ℕ) (pos : 1 ≤ node_level)
    (most : node_level ≤ max_level) where
  abbrev new : Tower
  new = new_tower sl key value ps as' v before behind node_level drawn pos most

  abbrev node : Node
  node = new_node sl key value ps as' v before behind node_level drawn pos most

  abbrev begun : Heap
  begun = start sl key value ps as' v before behind node_level drawn pos most

  place_last :
      (P : ℕ → Type 0)
      → P sl.fresh
      → All P (places (ps ++ as'))
      → All P (places (ps ++ (new ∷ as')))
  place_last P p h = subst (All P) (sym (Towers.places-append ps (new ∷ as'))) (
      Towers.All-insert P sl.fresh (places ps) (places as') p
        (subst (All P) (Towers.places-append ps as') h))

  add_last : (P : Tower → Type 0) → P new → All P (ps ++ as') → All P (ps ++ (new ∷ as'))
  add_last P p h = All-append P ps (new ∷ as') (All-left P ps as' h) (p, All-right P ps as' h)

  allocated_after : All (λ p. p < sl.fresh + 1) (head ∷ places (ps ++ (new ∷ as')))
  allocated_after =
      let grown : All (λ p. p < sl.fresh + 1) (head ∷ places (ps ++ as')) =
        All-map (λ p. p < sl.fresh) (λ p. p < sl.fresh + 1) (head ∷ places (ps ++ as'))
          (λ p lt. omega arith) v.allocated in
      (grown.0, place_last (λ p. p < sl.fresh + 1) (omega arith) grown.1)

  Distinct-after : Distinct (head ∷ places (ps ++ (new ∷ as')))
  Distinct-after =
      let fresh : All (λ x. x ≢ sl.fresh) (head ∷ places (ps ++ as')) =
        All-map (λ p. p < sl.fresh) (λ x. x ≢ sl.fresh) (head ∷ places (ps ++ as'))
          (λ p lt e. absurd (omega (arith, e))) v.allocated in
      (
        place_last (λ y. head ≢ y) fresh.0 v.distinct.0,
        subst Distinct (sym (Towers.places-append ps (new ∷ as'))) (
            Towers.Distinct-insert sl.fresh (places ps) (places as')
              (subst (All (λ x. x ≢ sl.fresh)) (Towers.places-append ps as') fresh.1)
              (subst Distinct (Towers.places-append ps as') v.distinct.1)),
      )

  sizes_after : (qs : List Tower) → sizes (qs ++ (new ∷ as')) ≡ sizes (qs ++ as') + mem_size node
  unfolding mem_size
  sizes_after [] = omega (arith, length-replicate {A = Option ℕ} node_level none)
  sizes_after (q ∷ qs) = omega (arith, sizes_after qs)

  module _ (heap : Heap)
      (w : Wired begun heap sl.fresh
        (pred sl key value ps as' v before behind node_level drawn pos most)
        (succ sl key value ps as' v before behind node_level drawn pos most)
        0
        node_level) where
    loaded_kept :
        (ts : List Tower)
        → All (λ p. p < sl.fresh) (places ts)
        → All (λ t. entry_at sl.heap t.place ≡ ok t.entry) ts
        → All (λ t. entry_at heap t.place ≡ ok t.entry) ts
    loaded_kept [] a l = tt
    loaded_kept (t ∷ ts) (a, as'') (l, ls) = (
      w.entries t.place
          ∙ start_entry sl key value ps as' v before behind node_level drawn pos most t.place a
          ∙ l,
      loaded_kept ts as'' ls,
    )

    loaded_after : All (λ t. entry_at heap t.place ≡ ok t.entry) (ps ++ (new ∷ as'))
    loaded_after =
        add_last (λ t. entry_at heap t.place ≡ ok t.entry)
          (w.entries sl.fresh
            ∙ entry_at-some begun sl.fresh node (write_same sl.heap sl.fresh node))
          (loaded_kept (ps ++ as') v.allocated.1 v.loaded)

    Links-after : Links (after sl node_level drawn (mem_size node) heap) (ps ++ (new ∷ as'))
    Links-after = record {
      chains = λ l lt.
          Chain-after sl key value ps as' v before behind node_level drawn pos most heap w l lt;
      loaded = loaded_after;
      not_flat = add_last (λ t. 1 ≤ t.height) pos v.not_flat;
      not_above =
          add_last (λ t. t.height ≤ sl.level + (node_level - sl.level)) (omega arith)
            (All-map (λ t. t.height ≤ sl.level) (λ t. t.height ≤ sl.level + (node_level - sl.level))
              (ps ++ as') (λ t le. omega arith) v.not_above);
      distinct = Distinct-after;
      allocated = allocated_after;
      sorted =
          subst IsSorted (sym (entries_of-insert sl.heap key new ps as' refl before behind))
            (insert_entry-IsSorted new.entry (entries_of (ps ++ as')) v.sorted);
      counted = omega (arith, v.counted, length-append ps (new ∷ as'), length-append ps as');
      measured = omega (arith, v.measured, sizes_after ps);
      level_pos = omega (arith, v.level_pos);
      level_max = omega (arith, v.level_max);
    }

  link-Links :
      (preds : List ℕ)
      → HasPreds sl.heap key ps as' preds 0 max_level
      → (sl' : SkipList) × (link key value preds node_level drawn sl ≡ ok sl')
        × Links sl' (ps ++ (new ∷ as'))
  unfolding link
  link-Links preds has =
      let raised : HasPreds sl.heap key ps as' (raise (node_level - sl.level) sl.level preds) 0
          max_level =
        raise-HasPreds sl.heap key ps as' (node_level - sl.level) sl.level max_level preds
          (λ l le. sym (
            ap (last head) (
              Towers.at_level_none l ps (
                All-map (λ t. t.height ≤ sl.level) (λ t. t.height ≤ l) ps (λ t h. omega arith)
                  (All-left (λ t. t.height ≤ sl.level) ps as' v.not_above)))))
          has in
      let (heap, run, w) =
        wire-Wired sl.fresh (pred sl key value ps as' v before behind node_level drawn pos most)
          (succ sl key value ps as' v before behind node_level drawn pos most) (λ _. none)
          (raise (node_level - sl.level) sl.level preds) node_level 0 begun
          (start-IsReady sl key value ps as' v before behind node_level drawn pos most
            (raise (node_level - sl.level) sl.level preds) raised) in
      (after sl node_level drawn (mem_size node) heap, rw (run, ◌>>=◌) refl, Links-after heap w)

-- On a valid skip list Put returns a valid one, whatever was drawn, and the nodes of that are the
-- nodes of the list with the new one inserted in key order.
pub put-Links :
    (key : InternalKey) (value : Bytes) (sl : SkipList) (ts : List Tower)
    → Links sl ts
    → (sl' : SkipList) × (ts' : List Tower) × (put key value sl ≡ ok sl')
      × Links sl' ts'
      × (entries_of ts' ≡ insert_entry (record { key = key; value = value }) (entries_of ts))
unfolding put
put-Links key value sl ts v =
    let (ps, as', e, before, behind) = split sl.heap key ts v.loaded v.sorted in
    let v' : Links sl (ps ++ as') = subst (Links sl) e v in
    let (preds, found, has) = find_predecessors-HasPreds sl key ps as' v' before behind in
    let ((level, drawn), drew, lo, hi, _) = random_level_lem sl in
    let (sl', run, w) =
      link-Links sl key value ps as' v' before behind level drawn lo (hi) preds has in
    (
      sl',
      ps ++ (new sl key value ps as' v' before behind level drawn lo (hi) ∷ as'),
      rw (found, drew, ◌>>=◌) run,
      w,
      entries_of-insert sl.heap key (new sl key value ps as' v' before behind level drawn lo (hi))
            ps as' refl before behind
          ∙ ap (λ us. insert_entry (record { key = key; value = value }) (entries_of us)) (sym e),
    )
