-- ===== src/Orchestrator/Watchdog/Spares.antt =====
-- The runs that the watchdog leaves alone.
use mergecrew.Base.{
  ℕ, String, List, [], ◌∷◌, false, ◌&&◌, ◌==◌, ◌≡◌, ◌≢◌, refl, sym, subst, ◌∙◌, arith, Bool-cases,
  inl, inr, any, All, count_of, keep, ==_iff,
}
use mergecrew.Exec.{Exec, Result, ok, raised, proceed, pure, gets, for_each, ◌>>=◌}
use mergecrew.Orchestrator.Store.{Db, RunPause, update_run, emit, run_is, find_run}
use mergecrew.Orchestrator.Store.Rows.{keep-apart, count_of-same}
use mergecrew.Orchestrator.Replies.Isolation.{find-change}
use mergecrew.Orchestrator.Watchdog.{
  WatchdogConfig, runs_too_long, waits_overdue, write_failed, fail_stuck, stuck_run_watchdog,
}

module _ (j : ℕ) (start : Db) where
  -- The run is stored as at the start, and so are the pauses.
  record Spared (db : Db) : Type 0 where
    row : find_run j db ≡ find_run j start
    pauses : db.pauses ≡ start.pauses
    clock : db.now ≡ start.now

  fail_stuck-Spared :
      (i : ℕ) (detail : String) (db : Db) → i ≢ j → Spared db → Spared (fail_stuck i detail db).1
  unfolding fail_stuck write_failed update_run emit gets ◌>>=◌
  fail_stuck-Spared i detail db ne v = elim (Bool-cases (any (run_is i) db.runs)) [
    | inl q ↦ rw q (record {
      row = find-change i j _ ne (λ x. refl) db.runs ∙ v.row;
      pauses = v.pauses;
      clock = v.clock;
    })
    | inr q ↦ rw q v
  ]

  for_each-Spared :
      {A : Type 0} (run_of : A → ℕ) (detail : String) (xs : List A)
      → All (λ x. (run_of x == j) ≡ false) xs
      → (db : Db) → Spared db
      → Spared (for_each xs (λ x. fail_stuck (run_of x) detail) db).1
  unfolding for_each ◌>>=◌ pure fail_stuck
  for_each-Spared run_of detail [] h db v = v
  for_each-Spared run_of detail (x ∷ xs) (apart, h) db v =
      for_each-Spared run_of detail xs h _
        (fail_stuck-Spared (run_of x) detail db (λ e. ground (arith, e)) v)

  same_wait :
      (cfg : WatchdogConfig) (db : Db)
      → Spared db
      → (p : RunPause)
      → (p.daily_run_id == j && waits_overdue cfg db p)
        ≡ (p.daily_run_id == j && waits_overdue cfg start p)
  same_wait cfg db v p = elim (Bool-cases (p.daily_run_id == j)) [
    | inr q ↦ rw q refl
    | inl q ↦
        let e : j ≡ p.daily_run_id = sym ((==_iff p.daily_run_id j).0 q) in
        let row : find_run p.daily_run_id db ≡ find_run p.daily_run_id start =
          subst (λ k. find_run k db ≡ find_run k start) e v.row in
        rw (row, v.clock) refl
  ]

  -- In the second query no pause of the run is overdue either.
  later-apart :
      (cfg : WatchdogConfig) (db : Db)
      → Spared db
      → count_of (λ p. p.daily_run_id == j && waits_overdue cfg start p) start.pauses ≡ 0
      → All (λ p. (p.daily_run_id == j) ≡ false) (keep (waits_overdue cfg db) db.pauses)
  later-apart cfg db v none =
      let same =
        count_of-same (λ p. p.daily_run_id == j && waits_overdue cfg db p)
          (λ p. p.daily_run_id == j && waits_overdue cfg start p) start.pauses
          (λ p. same_wait cfg db v p) in
      rw v.pauses
        (keep-apart (λ p. p.daily_run_id == j) (waits_overdue cfg db) start.pauses (same ∙ none))

  after-runs :
      (r : Result Unit) (db : Db) (rest : Exec Db Unit)
      → ((middle : Db) → Spared middle → Spared (rest middle).1)
      → Spared db
      → Spared (proceed r (λ x. rest) db).1
  after-runs (ok x) db rest h v = h db v
  after-runs (raised e) db rest h v = v

-- A run of which no row has run too long, and of which no pause for a rate limit is overdue while it waits for it, is
-- stored after the watchdog as it was before.
pub stuck_run_watchdog-spares :
    (cfg : WatchdogConfig) (j : ℕ) (db : Db)
    → count_of (λ r. run_is j r && runs_too_long cfg db.now r) db.runs ≡ 0
    → count_of (λ p. p.daily_run_id == j && waits_overdue cfg db p) db.pauses ≡ 0
    → find_run j (stuck_run_watchdog cfg db).1 ≡ find_run j db
unfolding stuck_run_watchdog gets ◌>>=◌
stuck_run_watchdog-spares cfg j db short timely =
    let runs = keep (runs_too_long cfg db.now) db.runs in
    let apart = keep-apart (run_is j) (runs_too_long cfg db.now) db.runs short in
    let begun : Spared j db db = record { row = refl; pauses = refl; clock = refl } in
    let first = for_each-Spared j db (λ r. r.id) "running_too_long" runs apart db begun in
    (after-runs j db _ _ _
      (λ middle v.
        for_each-Spared j db (λ p. p.daily_run_id) "paused_rate_limit_overdue" _
          (later-apart j db cfg middle v timely) middle v)
      first).row
