-- ===== src/Memtable/SkipList/Descent.antt =====
-- findPredecessors on a heap that links a list of nodes: on every level it finds the last node with a
-- smaller key.
use beachdb.Prelude.{
  ℕ, zero, suc, ◌+◌, ◌≡◌, refl, sym, ◌∙◌, ap, subst, arith, true, List, [], ◌∷◌, ◌++◌, some, All,
  All-right, length, length-append, set, index, ok, ◌>>=◌, ltb, ◌≤◌, ◌<◌, inl, inr, Bool-cases,
  append_assoc, append-nil,
}
use native.Mathlib.Decide.{ℕ_discrete}
use beachdb.Keys.{InternalKey}
use beachdb.Memtable.SkipList.{Heap, Run, next_at, advance, descend, raise, head}
use beachdb.Memtable.SkipList.Towers.{
  Tower, at_level, at_level-append, last, last-append, Chain, Chain-right,
}
use beachdb.Memtable.SkipList.Wired.{index-set_self, index-set_other}
use beachdb.Memtable.SkipList.Search.{IsBefore, IsBehind, advance-behind, advance_on}

-- `ps` are the nodes before the key and `as'` those behind it, in the order of the list.
module _ (h : Heap) (key : InternalKey) (ps as' : List Tower) where
  -- On each of the first `levels` levels, the way from `d` over the nodes `ts` leads to the node that
  -- is wanted there.
  abbrev IsOnWay : ℕ → ℕ → List Tower → Type 0
  IsOnWay levels d ts =
      (l : ℕ)
      → l < levels
      → (Chain h l d (at_level l (ts ++ as')))
        × (last d (at_level l ts) ≡ last head (at_level l ps))

  -- The end of the loop along one level.
  abbrev Arrives : Run ℕ → ℕ → ℕ → Type 0
  Arrives run l most =
      (d : ℕ) × (ts : List Tower) × (run ≡ ok d)
      × (d ≡ last head (at_level l ps))
      × IsOnWay (suc l) d ts
      × All (IsBefore h key) ts
      × (length ts ≤ most)

  over_tall :
      (l d : ℕ) (skipped : List Tower) (t : Tower) (ts : List Tower)
      → ltb l t.height ≡ true
      → IsOnWay (suc l) d (skipped ++ (t ∷ ts))
      → IsOnWay (suc l) t.place ts
  over_tall l d skipped t ts tall way j lt =
      let tall' : ltb j t.height ≡ true = ground arith in
      let (c, e) = way j lt in
      let split : at_level j ((skipped ++ (t ∷ ts)) ++ as')
          ≡ at_level j skipped ++ (t.place ∷ at_level j (ts ++ as')) =
        ap (at_level j) (append_assoc skipped (t ∷ ts) as')
        ∙ at_level-append j skipped (t ∷ (ts ++ as'))
        ∙ rw tall' refl in
      let split' : at_level j (skipped ++ (t ∷ ts))
          ≡ at_level j skipped ++ (t.place ∷ at_level j ts) =
        at_level-append j skipped (t ∷ ts) ∙ rw tall' refl in
      (
        (Chain-right h j d (at_level j skipped) (t.place ∷ at_level j (ts ++ as'))
            (subst (Chain h j d) split c)).1,
        sym (last-append d (at_level j skipped) (t.place ∷ at_level j ts))
            ∙ ap (last d) (sym split')
            ∙ e,
      )

  stay :
      (l d : ℕ) (ts : List Tower)
      → at_level l ts ≡ []
      → IsOnWay (suc l) d ts
      → Chain h l d (at_level l as') × (d ≡ last head (at_level l ps))
  stay l d ts none_there way =
      let (c, e) = way l (omega arith) in
      let split : at_level l (ts ++ as') ≡ at_level l as' =
        at_level-append l ts as' ∙ ap (λ xs. xs ++ at_level l as') none_there in
      (subst (Chain h l d) split c, ap (last d) (sym none_there) ∙ e)

  next_tall :
      (l d : ℕ) (skipped : List Tower) (t : Tower) (ts : List Tower)
      → at_level l skipped ≡ []
      → ltb l t.height ≡ true
      → IsOnWay (suc l) d (skipped ++ (t ∷ ts))
      → next_at h d l ≡ ok (some t.place)
  next_tall l d skipped t ts none_there tall way =
      let split : at_level l ((skipped ++ (t ∷ ts)) ++ as') ≡ t.place ∷ at_level l (ts ++ as') =
        ap (at_level l) (append_assoc skipped (t ∷ ts) as')
        ∙ at_level-append l skipped (t ∷ (ts ++ as'))
        ∙ rw (none_there, tall) refl in
      (subst (Chain h l d) split (way l (omega arith)).0).0

  -- A walk along one level: the nodes `skipped` do not reach it, the nodes `ts` are ahead.
  walk :
      (most fuel l d : ℕ) (skipped ts : List Tower)
      → at_level l skipped ≡ []
      → length ts < fuel
      → length (skipped ++ ts) ≤ most
      → All (IsBehind h key) as'
      → All (IsBefore h key) (skipped ++ ts)
      → IsOnWay (suc l) d (skipped ++ ts)
      → Arrives (advance fuel h key l d) l most
  walk most zero l d skipped ts none_there lt le behind before way = absurd (omega arith)
  walk most (suc fuel) l d skipped [] none_there lt le behind before way =
      let same : at_level l (skipped ++ []) ≡ [] =
        ap (at_level l) (append-nil skipped) ∙ none_there in
      let (c, e) = stay l d (skipped ++ []) same way in
      (d, skipped ++ [], advance-behind h key fuel l d as' behind c, e, way, before, le)
  walk most (suc fuel) l d skipped (t ∷ ts) none_there lt le behind before way =
      let (b, bs) = All-right (IsBefore h key) skipped (t ∷ ts) before in
      elim (Bool-cases (ltb l t.height)) [
        | inl tall ↦
            arrive
              (advance_on h key fuel l d t.place t.entry
                (next_tall l d skipped t ts none_there tall way) b.0 b.1)
              (walk most fuel l t.place [] ts refl (omega arith)
                (omega (arith, length-append skipped (t ∷ ts))) behind bs
                (over_tall l d skipped t ts tall way))
        | inr low ↦
            let whole : skipped ++ (t ∷ ts) ≡ (skipped ++ (t ∷ [])) ++ ts =
              sym (append_assoc skipped (t ∷ []) ts) in
            walk most (suc fuel) l d (skipped ++ (t ∷ [])) ts
              (at_level-append l skipped (t ∷ []) ∙ rw (none_there, low) refl) (omega arith)
              (subst (λ us. length us ≤ most) whole le) behind
              (subst (All (IsBefore h key)) whole before) (subst (IsOnWay (suc l) d) whole way)
      ]
    where
      arrive : {l most : ℕ} {r r' : Run ℕ} → r ≡ r' → Arrives r' l most → Arrives r l most
      arrive e (d, ts, run, a, b, c, g) = (d, ts, e ∙ run, a, b, c, g)

  -- `preds` names, from level `lo` on, the node that is wanted there.
  abbrev pub HasPreds : List ℕ → ℕ → ℕ → Type 0
  HasPreds preds lo hi =
      (l : ℕ) → lo ≤ l → l < hi → index {E = ⊥} preds l ≡ ok (last head (at_level l ps))

  set-HasPreds :
      (preds : List ℕ) (l top d w : ℕ)
      → index {E = ⊥} preds l ≡ ok w
      → d ≡ last head (at_level l ps)
      → HasPreds preds (suc l) top
      → HasPreds (set preds l d) l top
  set-HasPreds preds l top d w there e has j lo hi = elim (ℕ_discrete j l) [
    | yes same ↦ rw same (index-set_self preds l d w there ∙ ap ok e)
    | no ne ↦ index-set_other preds l j d ne ∙ has j (omega (arith, ne)) hi
  ]

  -- The loop down the levels finds the nodes that are wanted, if the rounds are enough for the nodes.
  pub descend-HasPreds :
      (fuel top levels d : ℕ) (ts : List Tower) (preds : List ℕ)
      → ((l : ℕ) → l < levels → (w : ℕ) × (index {E = ⊥} preds l ≡ ok w))
      → length ts < fuel
      → All (IsBehind h key) as'
      → All (IsBefore h key) ts
      → IsOnWay levels d ts
      → HasPreds preds levels top
      → (preds' : List ℕ) × (descend levels fuel h key d preds ≡ ok preds') × HasPreds preds' 0 top
  unfolding descend
  descend-HasPreds fuel top zero d ts preds room lt behind before way has = (preds, refl, has)
  descend-HasPreds fuel top (suc l) d ts preds room lt behind before way has =
      let (d', ts', run, e, way', before', le) =
        walk (length ts) fuel l d [] ts refl lt (omega arith) behind before way in
      let (w, there) = room l (omega arith) in
      let (preds', runs, has') =
        descend-HasPreds fuel top l d' ts' (set preds l d')
          (λ j lt.
            let (v, at) = room j (omega arith) in
            (v, index-set_other preds l j d' (λ q. absurd (omega (arith, q))) ∙ at))
          (omega arith) behind before' (λ j lt. way' j (omega arith))
          (set-HasPreds preds l top d' w there e has) in
      (preds', rw (run, ◌>>=◌) runs, has')

  pub raise-HasPreds :
      (rounds i top : ℕ) (preds : List ℕ)
      → ((l : ℕ) → i ≤ l → head ≡ last head (at_level l ps))
      → HasPreds preds 0 top
      → HasPreds (raise rounds i preds) 0 top
  unfolding raise
  raise-HasPreds zero i top preds high has = has
  raise-HasPreds (suc rounds) i top preds high has =
      raise-HasPreds rounds (i + 1) top (set preds i head) (λ l le. high l (omega arith))
        (λ j lo hi. elim (ℕ_discrete j i) [
          | no ne ↦ index-set_other preds i j head ne ∙ has j lo hi
          | yes same ↦ rw same (
              index-set_self preds i head (last head (at_level i ps)) (rw same at (has j lo hi))
              ∙ ap ok (high i (omega arith)))
        ])
