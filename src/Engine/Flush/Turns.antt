-- ===== src/Engine/Flush/Turns.antt =====
-- A round of the flusher wakes the writers that wait for the flush slot, and what they then meet.
use beachdb.Prelude.{
  ℕ, List, ◌∷◌, ◌++◌, append_assoc, append-nil, ◌≡◌, ◌≢◌, refl, sym, ◌∙◌, ap, arith, false, [], ◌∷◌,
  Option, none, some, Result, ok, err, panic, ◌==◌, if◌then◌else◌, inl, inr, Bool-cases,
}
use beachdb.Memtable.{Memtable}
use beachdb.Engine.{
  Db, DbError, Outcome, returned, waiting, wait_for_flush_slot, woken, wake_up, rotate,
  rotate_after,
}
use beachdb.Engine.Flush.{
  Job, after_flush, flush_frozen, flush_round, Flusher, goes_on, exits, Monitor, broadcast, signal,
  settle, slot_turn, slot_turns,
}
use beachdb.Engine.Flush.Waits.{Ends, flush_frozen-Ends}

module _ (M : Memtable) where
  -- What the writers get that take the lock in this order behind a flush: its error; or the first
  -- of them gets the slot, and the others wait for the flush of what it has frozen.
  abbrev pub all_get : Outcome → List ℕ → List (ℕ × Outcome)
  all_get o [] = []
  all_get o (i ∷ is) = (i, o) ∷ all_get o is

  abbrev pub answers : Result DbError (Unit {0}) → List ℕ → List (ℕ × Outcome)
  answers (ok _) [] = []
  answers (ok _) (i ∷ is) = (i, returned (ok tt)) ∷ all_get waiting is
  answers (err e) is = all_get (returned (err e)) is
  answers panic is = all_get (returned panic) is

  -- Those that sleep again.
  abbrev pub losers : Result DbError (Unit {0}) → List ℕ → List ℕ
  losers (ok _) [] = []
  losers (ok _) (i ∷ is) = is
  losers (err e) is = []
  losers panic is = []

  woken_open : (d : Db M) → d.closed ≡ false → d.flush_err ≡ none → woken M d ≡ ok tt
  unfolding woken
  woken_open d is_open no_error = ground (arith, is_open, no_error)

  woken_failed :
      (d : Db M) (e : DbError) → d.closed ≡ false → d.flush_err ≡ some e → woken M d ≡ err e
  unfolding woken
  woken_failed d e is_open has_failed = ground (arith, is_open, has_failed)

  wait_free : (d : Db M) → d.imm_mem ≡ none → wait_for_flush_slot M [] d ≡ (returned (ok tt), d)
  unfolding wait_for_flush_slot
  wait_free d free = ground (arith, free)

  wait_frozen :
      (d : Db M) (imm : M.Mem)
      → d.imm_mem ≡ some imm
      → d.flush_err ≡ none
      → wait_for_flush_slot M [] d ≡ (waiting, d)
  unfolding wait_for_flush_slot
  wait_frozen d imm frozen no_error = ground (arith, frozen, no_error)

  -- The turn of a writer, by what it finds after its wake-up.
  turn_after :
      (i : ℕ) (m : Monitor M) (r : Result DbError (Unit {0}))
      → woken M m.db ≡ r
      → slot_turn M i m
        ≡ settle M i m (rotate_after M (wake_up M (wait_for_flush_slot M []) r m.db))
  unfolding slot_turn
  turn_after i m r found =
      ap (λ x. settle M i m (rotate_after M (wake_up M (wait_for_flush_slot M []) x m.db))) found

  turn_waits :
      (i : ℕ) (m : Monitor M) (imm : M.Mem)
      → m.db.closed ≡ false
      → m.db.flush_err ≡ none
      → m.db.imm_mem ≡ some imm
      → slot_turn M i m ≡ (waiting, record m { asleep = m.asleep ++ (i ∷ []) })
  unfolding wake_up
  turn_waits i m imm is_open no_error frozen =
      turn_after i m (ok tt) (woken_open m.db is_open no_error)
      ∙ ap (λ o. settle M i m (rotate_after M o)) (wait_frozen m.db imm frozen no_error)
      ∙ unfold rotate_after settle in refl

  turn_fails :
      (i : ℕ) (m : Monitor M) (e : DbError)
      → m.db.closed ≡ false
      → m.db.flush_err ≡ some e
      → slot_turn M i m ≡ (returned (err e), m)
  turn_fails i m e is_open has_failed =
      turn_after i m (err e) (woken_failed m.db e is_open has_failed)
      ∙ unfold wake_up rotate_after settle in refl

  signal-nobody : (m : Monitor M) → m.asleep ≡ [] → signal M m ≡ m
  unfolding signal
  signal-nobody m nobody =
      let woken_one : List ℕ → Monitor M =
        λ a. elim a [ [] ↦ m | i ∷ is ↦ record m { asleep = is; ready = m.ready ++ (i ∷ []) } ] in
      ap woken_one nobody

  turn_wins :
      (i : ℕ) (m : Monitor M)
      → m.db.closed ≡ false
      → m.db.flush_err ≡ none
      → m.db.imm_mem ≡ none
      → m.asleep ≡ []
      → slot_turn M i m ≡ (returned (ok tt), record m { db = rotate M m.db })
  unfolding wake_up rotate_after settle
  turn_wins i m is_open no_error free nobody =
      turn_after i m (ok tt) (woken_open m.db is_open no_error)
      ∙ ap (λ o. settle M i m (rotate_after M o)) (wait_free m.db free)
      ∙ ap (λ x. (returned (ok tt), x)) (signal-nobody (record m { db = rotate M m.db }) nobody)

  turns_wait :
      (is : List ℕ) (m : Monitor M) (imm : M.Mem)
      → m.db.closed ≡ false
      → m.db.flush_err ≡ none
      → m.db.imm_mem ≡ some imm
      → slot_turns M is m ≡ (all_get waiting is, record m { asleep = m.asleep ++ is })
  unfolding slot_turns
  turns_wait [] m imm is_open no_error frozen =
      ap (λ a. ([], record m { asleep = a })) (sym (append-nil m.asleep))
  turns_wait (i ∷ is) m imm is_open no_error frozen =
      let later : Monitor M = record m { asleep = m.asleep ++ (i ∷ []) } in
      rw
        (
          turn_waits i m imm is_open no_error frozen,
          turns_wait is later imm is_open no_error frozen,
          append_assoc m.asleep (i ∷ []) is,
        )
        refl

  turns_fail :
      (is : List ℕ) (m : Monitor M) (e : DbError)
      → m.db.closed ≡ false
      → m.db.flush_err ≡ some e
      → slot_turns M is m ≡ (all_get (returned (err e)) is, m)
  unfolding slot_turns
  turns_fail [] m e is_open has_failed = refl
  turns_fail (i ∷ is) m e is_open has_failed =
      rw (turn_fails i m e is_open has_failed, turns_fail is m e is_open has_failed) refl

  -- The goroutines in `ready` take their turns.
  abbrev pub turns : Monitor M → List (ℕ × Outcome) × Monitor M
  turns m = slot_turns M m.ready (record m { ready = [] })

  -- What the turns give, and who sleeps behind them.
  abbrev pub AreAnswered :
      Result DbError (Unit {0}) → List ℕ → List (ℕ × Outcome) × Monitor M → Type 0
  AreAnswered r is (outcomes, m) =
      (outcomes ≡ answers r is) × (m.asleep ≡ losers r is) × (m.ready ≡ [])

  turns_succeed :
      (is : List ℕ) (m : Monitor M)
      → m.db.closed ≡ false
      → m.db.flush_err ≡ none
      → m.db.imm_mem ≡ none
      → m.asleep ≡ []
      → m.ready ≡ []
      → AreAnswered (ok tt) is (slot_turns M is m)
  unfolding slot_turns
  turns_succeed [] m is_open no_error free nobody idle = (refl, nobody, idle)
  turns_succeed (i ∷ is) m is_open no_error free nobody idle =
      let won : Monitor M = record m { db = rotate M m.db } in
      let rest : slot_turns M is won
          ≡ (all_get waiting is, record won { asleep = m.asleep ++ is }) =
        unfold rotate in turns_wait is won m.db.mem is_open no_error refl in
      rw (turn_wins i m is_open no_error free nobody, rest) (refl, ap (λ a. a ++ is) nobody, idle)

  -- Behind a flush: its result decides.
  after_flush-AreAnswered :
      (before : Db M) (p : Result DbError (Unit {0}) × Db M) (m : Monitor M)
      → before.closed ≡ false
      → Ends M before p
      → p.0 ≢ panic
      → AreAnswered p.0 (m.ready ++ m.asleep) (turns (after_flush M p m).1)
  unfolding after_flush broadcast
  after_flush-AreAnswered before (ok u, db) m is_open (inl (_, free, no_error, same)) returns =
      turns_succeed (m.ready ++ m.asleep) (record m { db = db; asleep = []; ready = [] })
        (same ∙ is_open) no_error free refl refl
  after_flush-AreAnswered before (ok u, db) m is_open (inr (inl (e, (r, _, _, _, _)))) returns =
      absurd (cc r)
  after_flush-AreAnswered before (ok u, db) m is_open (inr (inr r)) returns = absurd (cc r)
  after_flush-AreAnswered before (err e, db) m is_open (inl (r, _, _, _)) returns = absurd (cc r)
  after_flush-AreAnswered before (err e, db) m is_open (inr (inl (f, (r, _, _, failed, same))))
        returns =
      let woken_all : Monitor M = record m { db = db; asleep = []; ready = [] } in
      let ids : List ℕ = m.ready ++ m.asleep in
      let run = turns_fail ids woken_all f (same ∙ is_open) failed in
      (
        ap (λ x. x.0) run ∙ ap (λ x. all_get (returned x) ids) (sym r),
        ap (λ x. x.1.asleep) run,
        ap (λ x. x.1.ready) run,
      )
  after_flush-AreAnswered before (err e, db) m is_open (inr (inr r)) returns = absurd (cc r)
  after_flush-AreAnswered before (panic, db) m is_open ends returns = absurd (returns refl)

  -- The result of a round, and who waits for it: an empty memtable is dropped without a flush.
  abbrev pub round_of : Job M → List ℕ → M.Mem → Monitor M → Result DbError (Unit {0}) × List ℕ
  round_of job late imm m =
      if M.len imm == 0
      then (ok tt, m.ready ++ m.asleep)
      else ((flush_frozen M job imm m.db).0, m.ready ++ (m.asleep ++ late))

  module _ (job : Job M) (late : List ℕ) (imm : M.Mem) (m : Monitor M)
      (is_open : m.db.closed ≡ false) (still_open : (job.meanwhile m.db).closed ≡ false)
      (no_error : m.db.flush_err ≡ none) (frozen : m.db.imm_mem ≡ some imm)
      (returns : (flush_frozen M job imm m.db).0 ≢ panic) where
    dropped : Monitor M
    dropped = broadcast M (record m { db = record m.db { imm_mem = none } })

    round_frozen : flush_round M job late m ≡ (
        if M.len imm == 0
        then (goes_on, dropped)
        else after_flush M (flush_frozen M job imm m.db) (record m { asleep = m.asleep ++ late }))
    unfolding flush_round dropped
    round_frozen =
        let round : M.Mem → Flusher M × Monitor M = λ i.
          if M.len i == 0
          then (goes_on, dropped)
          else after_flush M (flush_frozen M job i m.db) (record m { asleep = m.asleep ++ late }) in
        let look : Option M.Mem → Flusher M × Monitor M =
          λ o. elim o [ none ↦ (goes_on, m) | some i ↦ round i ] in
        ap (λ c. if c then (exits, m) else look m.db.imm_mem) is_open ∙ ap look frozen

    dropped-AreAnswered : AreAnswered (ok tt) (m.ready ++ m.asleep) (turns dropped)
    unfolding dropped broadcast
    dropped-AreAnswered =
        turns_succeed (m.ready ++ m.asleep)
          (record m { db = record m.db { imm_mem = none }; asleep = []; ready = [] }) is_open
          no_error refl refl refl

    -- Let the database be open, with no flush error and a frozen memtable, and stay open while the
    -- flush has released the lock, and let the flush not panic. Behind one round of the flusher
    -- the writers that slept on the condition variable, those that fell asleep during the flush
    -- among them, are awake, behind those that were awake before. Taking the lock one after the
    -- other they all get the flush's error if it failed; if it succeeded, or the frozen memtable
    -- was empty, the first gets the slot, and the others sleep again.
    pub flush_round-answers :
        let round = round_of job late imm m in
        AreAnswered round.0 round.1 (turns (flush_round M job late m).1)
    flush_round-answers = elim (Bool-cases (M.len imm == 0)) [
      | inl empty ↦ rw (round_frozen, empty) dropped-AreAnswered
      | inr filled ↦
          rw (round_frozen, filled)
            (after_flush-AreAnswered (job.meanwhile m.db) (flush_frozen M job imm m.db)
              (record m { asleep = m.asleep ++ late }) still_open (flush_frozen-Ends M job imm m.db)
              returns)
    ]
