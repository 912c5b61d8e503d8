-- ===== src/Sstable/Iterator/Walk.antt =====
-- The iterator over a table whose index names its blocks: the entries it visits.
use beachdb.Prelude.{
  ℕ, zero, suc, ◌+◌, ◌≡◌, ◌≤◌, ◌<◌, refl, sym, ◌∙◌, ap, subst, arith, true, false, List, [], ◌∷◌,
  ◌++◌, some, length, length-append, drop, ok, ◌>>=◌, index, ltb, leb, append_assoc,
}
use beachdb.Keys.{InternalKey}
use beachdb.Sstable.Errors.{SstError}
use beachdb.Sstable.Block.{BlockEntry}
use beachdb.Sstable.Index.{IndexEntry}
use beachdb.Sstable.Reader.{Reader, load_block_entries}
use beachdb.Sstable.Reader.Blocks.{entries_of, Loads, Stores, LastKey}
use beachdb.Sstable.Iterator.{
  Iterator, Run, next, next_block, current, key, value, collect, loading,
}

index-append_length :
    {A : Type 0} (front : List A) (a : A) (ahead : List A)
    → index {E = ⊥} (front ++ (a ∷ ahead)) (length front) ≡ ok a
index-append_length [] a ahead = refl
index-append_length (x ∷ front) a ahead = index-append_length front a ahead

module _ {A : Type 0} where
  pub index-drop :
      {E : Type 0} (n : ℕ) (xs : List A) (y : A) (ys : List A)
      → drop n xs ≡ y ∷ ys
      → (index {E = E} xs n ≡ ok y) × (n < length xs) × (drop (n + 1) xs ≡ ys)
  index-drop zero [] y ys e = cc
  index-drop zero (x ∷ xs) y ys e = ground arith
  index-drop (suc n) [] y ys e = cc
  index-drop {E} (suc n) (x ∷ xs) y ys e =
      let (at_n, lt, after) = index-drop {E = E} n xs y ys e in
      let next : suc n + 1 ≡ suc (n + 1) = omega arith in
      (at_n, omega arith, ap (λ m. drop m (x ∷ xs)) next ∙ after)

  drop-none : (n : ℕ) (xs : List A) → drop n xs ≡ [] → length xs ≤ n
  drop-none zero [] e = omega arith
  drop-none zero (x ∷ xs) e = cc
  drop-none (suc n) [] e = omega arith
  drop-none (suc n) (x ∷ xs) e = omega (arith, drop-none n xs e)

-- Loading the block that an index entry names.
pub load-Loads :
    (r : Reader) (i : ℕ) (e : IndexEntry) (es : List IndexEntry) (b : List BlockEntry)
    → drop i r.index_entries ≡ e ∷ es
    → Loads r e b
    → load_block_entries r i ≡ ok b
unfolding load_block_entries
load-Loads r i e es b d l =
    let (there, lt, _) = index-drop {E = SstError} i r.index_entries e es d in
    let inside : leb (length r.index_entries) i ≡ false = ground arith in
    rw (inside, there, l.reads, l.decodes) refl

-- Where a block is loaded, the iterator goes on with its entries.
pub loading-ok :
    (r : Reader) (i : ℕ) (it : Iterator) (on : List BlockEntry → Run Iterator) (b : List BlockEntry)
    → load_block_entries r i ≡ ok b
    → loading r i it on ≡ on b
loading-ok r i it on b e = rw (e, loading) refl

-- The iterator is at the entry `e`, and the entries `es` are behind it.
pub record On (r : Reader) (it : Iterator) (e : BlockEntry) (es : List BlockEntry) : Type 0 where
  pub valid_is : it.valid ≡ true
  pub reader_is : it.reader ≡ some r
  pub front : List BlockEntry
  pub ahead : List BlockEntry
  pub later : List (List BlockEntry)
  pub block : it.entries ≡ front ++ (e ∷ ahead)
  pub place : it.entry_idx ≡ length front
  pub rest : es ≡ ahead ++ entries_of later
  pub stores : Stores r (drop (it.block_idx + 1) r.index_entries) later

-- The iterator has the entries `es` before it.
abbrev pub Stands : Reader → Iterator → List BlockEntry → Type 0
Stands r it [] = it.valid ≡ false
Stands r it (e ∷ es) = On r it e es

module _ (r : Reader) where
  current-On :
      (it : Iterator) (e : BlockEntry) (es : List BlockEntry) → On r it e es → current it ≡ ok e
  unfolding current
  current-On it e es o = rw (o.block, o.place) (index-append_length o.front e o.ahead)

  entry-On :
      (it : Iterator) (e : BlockEntry) (es : List BlockEntry)
      → On r it e es
      → (key it ≡ ok e.key) × (value it ≡ ok e.value)
  unfolding key value
  entry-On it e es o =
      (rw (o.valid_is, current-On it e es o) refl, rw (o.valid_is, current-On it e es o) refl)

  -- The blocks from the iterator's block on, before it is loaded.
  pub at-Stands :
      (i : ℕ) (it : Iterator) (b : List BlockEntry) (bs : List (List BlockEntry))
      → it.reader ≡ some r
      → it.entries ≡ b
      → it.entry_idx ≡ 0
      → it.valid ≡ true
      → it.block_idx ≡ i
      → Stores r (drop (i + 1) r.index_entries) bs
      → (k : InternalKey) → LastKey b k
      → Stands r it (b ++ entries_of bs)
  at-Stands i it [] bs rd b0 p v j st k l = absurd l
  at-Stands i it (e ∷ b) bs rd b0 p v j st k l = record {
    valid_is = v;
    reader_is = rd;
    front = [];
    ahead = b;
    later = bs;
    block = b0;
    place = p;
    rest = refl;
    stores = subst (λ (n : ℕ). Stores r (drop (n + 1) r.index_entries) bs) (sym j) st;
  }

  abbrev pub Leads : Run Iterator → List BlockEntry → Type 0
  Leads run es = (it : Iterator) × (run ≡ ok it) × Stands r it es

  next_block-Stands :
      (it : Iterator) (d : List IndexEntry) (bs : List (List BlockEntry))
      → it.reader ≡ some r
      → it.valid ≡ true
      → it.entry_idx ≡ 0
      → drop it.block_idx r.index_entries ≡ d
      → Stores r d bs
      → Leads (next_block r it) (entries_of bs)
  unfolding next_block
  next_block-Stands it [] [] rd v p d st =
      let out : leb (length r.index_entries) it.block_idx ≡ true =
        ground (arith, drop-none it.block_idx r.index_entries d) in
      (record it { valid = false }, rw out refl, refl)
  next_block-Stands it [] (b ∷ bs) rd v p d st = absurd st
  next_block-Stands it (x ∷ xs) [] rd v p d st = absurd st
  next_block-Stands it (x ∷ xs) (b ∷ bs) rd v p d (l, st) =
      let (_, lt, after) = index-drop {E = SstError} it.block_idx r.index_entries x xs d in
      let inside : leb (length r.index_entries) it.block_idx ≡ false = ground arith in
      (
        record it { entries = b },
        rw (inside) (
            loading-ok r it.block_idx it (λ entries. ok (record it { entries = entries })) b
              (load-Loads r it.block_idx x xs b d l)),
        at-Stands it.block_idx (record it { entries = b }) b bs rd refl p v refl
            (subst (λ (t : List IndexEntry). Stores r t bs) (sym after) st) x.last_key l.last,
      )

  step_in :
      (it : Iterator) (front : List BlockEntry) (e a : BlockEntry) (ahead : List BlockEntry)
      (later : List (List BlockEntry))
      → it.valid ≡ true
      → it.reader ≡ some r
      → it.entries ≡ front ++ (e ∷ a ∷ ahead)
      → it.entry_idx ≡ length front
      → Stores r (drop (it.block_idx + 1) r.index_entries) later
      → Leads (next it) ((a ∷ ahead) ++ entries_of later)
  unfolding next
  step_in it front e a ahead later v rd b p st =
      let within : ltb (it.entry_idx + 1) (length it.entries) ≡ true =
        ground (arith, ap (length {A = BlockEntry}) b, length-append front (e ∷ a ∷ ahead), p) in
      (
        record it { entry_idx = it.entry_idx + 1 },
        ground (arith, v, within),
        record {
          valid_is = v;
          reader_is = rd;
          front = front ++ (e ∷ []);
          ahead = ahead;
          later = later;
          block = b ∙ sym (append_assoc front (e ∷ []) (a ∷ ahead));
          place = omega (arith, p, length-append front (e ∷ []));
          rest = refl;
          stores = st;
        },
      )

  step_out :
      (it : Iterator) (front : List BlockEntry) (e : BlockEntry) (later : List (List BlockEntry))
      → it.valid ≡ true
      → it.reader ≡ some r
      → it.entries ≡ front ++ (e ∷ [])
      → it.entry_idx ≡ length front
      → Stores r (drop (it.block_idx + 1) r.index_entries) later
      → Leads (next it) (entries_of later)
  unfolding next
  step_out it front e later v rd b p st =
      let beyond : ltb (it.entry_idx + 1) (length it.entries) ≡ false =
        ground (arith, ap (length {A = BlockEntry}) b, length-append front (e ∷ []), p) in
      let it' : Iterator = record it { block_idx = it.block_idx + 1; entry_idx = 0 } in
      let (it'', run, s) =
        next_block-Stands it' (drop (it.block_idx + 1) r.index_entries) later rd v refl refl st in
      (it'', ground (arith, v, beyond, rd, run), s)

  next-Stands :
      (it : Iterator) (e : BlockEntry) (es : List BlockEntry) → On r it e es → Leads (next it) es
  next-Stands it e es o = split o.ahead o.block o.rest
    where
      split :
          (ahead : List BlockEntry)
          → it.entries ≡ o.front ++ (e ∷ ahead)
          → es ≡ ahead ++ entries_of o.later
          → Leads (next it) es
      split [] b same =
          subst (Leads (next it)) (sym same)
            (step_out it o.front e o.later o.valid_is o.reader_is b o.place o.stores)
      split (a ∷ ahead) b same =
          subst (Leads (next it)) (sym same)
            (step_in it o.front e a ahead o.later o.valid_is o.reader_is b o.place o.stores)

  -- The loop reads the entries ahead, in their order.
  pub collect-Stands :
      (fuel : ℕ) (it : Iterator) (es : List BlockEntry)
      → length es < fuel
      → Stands r it es
      → collect fuel it ≡ ok es
  unfolding collect
  collect-Stands zero it es lt s = absurd (omega arith)
  collect-Stands (suc fuel) it [] lt s = rw (s, collect) refl
  collect-Stands (suc fuel) it (e ∷ es) lt s =
      let (is_key, is_value) = entry-On it e es s in
      let (it', on, s') = next-Stands it e es s in
      rw
        (
          s.valid_is,
          is_key,
          is_value,
          on,
          collect-Stands fuel it' es (omega arith) s',
          ◌>>=◌,
          collect,
        )
        refl
