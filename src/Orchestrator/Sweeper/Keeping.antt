-- ===== src/Orchestrator/Sweeper/Keeping.antt =====
-- Invariants of a scan, from the writes that it makes.
use mergecrew.Base.{ℕ, some, refl}
use mergecrew.Exec.Preserves.{
  Preserves, Preserves-bind, Preserves-if, Preserves-pure, Preserves-gets, Preserves-for_each,
}
use mergecrew.Orchestrator.Store.{Db, AgentStep, update_step}
use mergecrew.Orchestrator.Dispatch.Keeping.{EnqueueRules, Settles}
use mergecrew.Orchestrator.Sweeper.{
  SweeperConfig, StaleStep, update_running_step, give_up_step, redispatch_step, recover_step,
  stale_steps, tick,
}

-- A heartbeat is written, and steps that run fail.
pub record SweepRules {ℓ} (P : Db → Type ℓ) : Type ℓ where
  pub enqueue : EnqueueRules P
  pub beats : (i now : ℕ) → Preserves P (update_step i (λ s. record s { heartbeat_at = some now }))
  pub gives_up :
      (i : ℕ) (f : AgentStep → AgentStep)
      → ((s : AgentStep) → Settles s (f s))
      → Preserves P (update_running_step i f)

module _ {ℓ} {P : Db → Type ℓ} (k : SweepRules P) (cfg : SweeperConfig) where
  open k use {enqueue, beats, gives_up}
  open enqueue use {emits, queues}

  recover_step-Preserves : (s : StaleStep) → Preserves P (recover_step cfg s)
  unfolding recover_step give_up_step redispatch_step
  recover_step-Preserves s =
      Preserves-if _ _ _
        (Preserves-bind _ _ (Preserves-gets _) λ now.
          Preserves-bind _ _ (gives_up _ _ (λ x. (refl, refl, refl, refl, refl))) λ _. emits _)
        (Preserves-bind _ _ (Preserves-gets _) λ now. Preserves-if _ _ _ (Preserves-pure tt) (
          Preserves-bind _ _ (Preserves-gets _)
            λ t. Preserves-bind _ _ (beats _ t) λ _. Preserves-bind _ _ (queues _) λ _. emits _))

  pub tick-Preserves : Preserves P (tick cfg)
  unfolding tick
  tick-Preserves = record {
    after = λ db v.
        (Preserves-for_each (stale_steps cfg db) (recover_step cfg) recover_step-Preserves).after db
          v;
  }
