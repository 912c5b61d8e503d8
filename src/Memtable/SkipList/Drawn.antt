-- ===== src/Memtable/SkipList/Drawn.antt =====
-- internal/memtable/skiplist.go: the level that randomLevel draws.
use beachdb.Prelude.{
  ℕ, zero, suc, ◌+◌, ◌≡◌, ◌⊎◌, ◌≤◌, ◌<◌, refl, subst, arith, Bool, true, false, ltb, ltb→lt,
  ltb-false→le, Bool-cases, inl, inr, ok,
}
use beachdb.Memtable.SkipList.{SkipList, max_level, random_level, random_level_from}

-- `passed` draws in a row are below 0.25.
abbrev pub Passes : (ℕ → Bool) → ℕ → ℕ → Type 0
Passes draws drawn zero = Unit {0}
Passes draws drawn (suc passed) = (draws drawn ≡ false) × Passes draws (drawn + 1) passed

-- The loop ends at the greatest level without a draw, or below it at a draw that is not below 0.25.
abbrev pub Stops : (ℕ → Bool) → ℕ → ℕ × ℕ → Type 0
Stops draws next (last, after) =
    ((last ≡ max_level) × (after ≡ next))
    ⊎ ((last < max_level) × (draws next ≡ true) × (after ≡ next + 1))

-- The levels gained are the draws below 0.25, one after the other, up to where the loop stops.
abbrev pub IsDrawn : (ℕ → Bool) → ℕ → ℕ → ℕ × ℕ → Type 0
IsDrawn draws drawn level res =
    (passed : ℕ) × (res.0 ≡ level + passed)
    × Passes draws drawn passed
    × Stops draws (drawn + passed) res

Stops-max_level :
    (draws : ℕ → Bool) (next : ℕ) (res : ℕ × ℕ) → Stops draws next res → res.0 ≤ max_level
Stops-max_level draws next (last, after) (inl (top, _)) = omega arith
Stops-max_level draws next (last, after) (inr (lower, _, _)) = omega arith

pub random_level_from-IsDrawn :
    (rounds : ℕ) (draws : ℕ → Bool) (drawn level : ℕ)
    → level ≤ max_level
    → max_level < level + rounds
    → (res : ℕ × ℕ) × (random_level_from rounds draws drawn level ≡ ok res)
      × IsDrawn draws drawn level res
unfolding random_level_from
random_level_from-IsDrawn zero draws drawn level below enough = absurd (omega arith)
random_level_from-IsDrawn (suc rounds) draws drawn level below enough =
    elim (Bool-cases (ltb level max_level)) [
      | inr top ↦
          let le : max_level ≤ level = ltb-false→le level max_level top in
          ((level, drawn), rw top refl, (0, omega arith, tt, inl (omega arith, omega arith)))
      | inl lower ↦
          let lt : level < max_level = ltb→lt level max_level lower in
          elim (Bool-cases (draws drawn)) [
            | inl stop ↦
                let here : drawn + 0 ≡ drawn = omega arith in
                (
                  (level, drawn + 1),
                  rw (lower, stop) refl,
                  (0, omega arith, tt, inr (lt, rw here stop, omega arith)),
                )
            | inr go ↦
                let (res, run, (passed, last, passes, end)) =
                  random_level_from-IsDrawn rounds draws (drawn + 1) (level + 1) (omega arith)
                    (omega arith) in
                (
                  res,
                  rw (lower, go) run,
                  (
                    suc passed,
                    omega arith,
                    (go, passes),
                    subst (λ n. Stops draws n res) (omega arith) end,
                  ),
                )
          ]
    ]

-- Drawing a level for a new node returns, with a level from 1 to the greatest level: the level is
-- 1 plus the number of draws below 0.25 in a row, and the loop stops at the greatest level without
-- a further draw, or below it at the first draw that is not below 0.25.
pub random_level_lem :
    (sl : SkipList)
    → (res : ℕ × ℕ) × (random_level sl ≡ ok res)
      × (1 ≤ res.0)
      × (res.0 ≤ max_level)
      × IsDrawn sl.draws sl.drawn 1 res
unfolding random_level
random_level_lem sl =
    let (res, run, drawn) =
      random_level_from-IsDrawn max_level sl.draws sl.drawn 1 (omega arith) (omega arith) in
    let (passed, last, passes, end) = drawn in
    (res, run, omega (arith, last), Stops-max_level sl.draws (sl.drawn + passed) res end, drawn)
