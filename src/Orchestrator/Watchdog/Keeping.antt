-- ===== src/Orchestrator/Watchdog/Keeping.antt =====
-- Invariants of the watchdog, from the writes that it makes.
use mergecrew.Base.{ℕ, String, ◌≡◌}
use mergecrew.Exec.Preserves.{Preserves, Preserves-bind, Preserves-gets, Preserves-for_each}
use mergecrew.Orchestrator.Store.{Db, DailyRun, Event, update_run, emit}
use mergecrew.Orchestrator.Watchdog.{WatchdogConfig, write_failed, fail_stuck, stuck_run_watchdog}

module _ {ℓ} {P : Db → Type ℓ}
    (writes : (i : ℕ) (f : DailyRun → DailyRun)
      → ((x : DailyRun) → x.id ≡ i → (f x).id ≡ i)
      → Preserves P (update_run i f))
    (emits : (e : Event) → Preserves P (emit e)) where
  fail_stuck-Preserves : (i : ℕ) (detail : String) → Preserves P (fail_stuck i detail)
  unfolding fail_stuck write_failed
  fail_stuck-Preserves i detail = record {
    after = λ db v.
        (Preserves-bind _ _ (Preserves-gets _)
            λ now. Preserves-bind _ _ (writes i _ (λ x e. e)) λ _. emits _).after
          db v;
  }

  pub stuck_run_watchdog-Preserves : (cfg : WatchdogConfig) → Preserves P (stuck_run_watchdog cfg)
  unfolding stuck_run_watchdog
  stuck_run_watchdog-Preserves cfg = Preserves-bind _ _ (Preserves-gets _) λ runs.
      Preserves-bind _ _ (Preserves-for_each runs _ (λ r. fail_stuck-Preserves r.id _)) λ _.
        Preserves-bind _ _ (Preserves-gets _)
          λ pauses. Preserves-for_each pauses _ (λ p. fail_stuck-Preserves p.daily_run_id _)
