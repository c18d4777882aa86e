-- ===== src/Api/Keeping.antt =====
-- Invariants of the requests of users, from the writes that they make.
use mergecrew.Base.{ℕ, Option, none, some, Bool, ◌≡◌, refl}
use mergecrew.Exec.{Exec, Failure}
use mergecrew.Exec.Preserves.{
  Preserves, Preserves-bind, Preserves-if, Preserves-pure, Preserves-raise, Preserves-gets,
}
use mergecrew.Orchestrator.Store.{DailyRun, Project, Event, create_run, emit}
use mergecrew.Orchestrator.RunStart.{RunDue}
use mergecrew.Api.{
  TenantContext, ApiDb, run_due, workspace_cleanup, in_shared, add_request, publish_cancel,
  refuse_if, update_tenant_run,
}
use mergecrew.Api.Roles.{can_activate, as_operator}
use mergecrew.Api.Runs.{check_ready, create_pending, run_found, get_run, or_not_found, cancel}

-- What the start and the cancellation of a run write.
pub record RunRules {ℓ} (P : ApiDb → Type ℓ) : Type ℓ where
  pub creates :
      (row : ℕ → DailyRun) → ((i : ℕ) → (row i).id ≡ i) → Preserves P (in_shared (create_run row))
  pub writes :
      (org i : ℕ) (f : DailyRun → DailyRun)
      → ((x : DailyRun) → (f x).id ≡ x.id)
      → Preserves P (in_shared (update_tenant_run org i f))
  pub emits : (e : Event) → Preserves P (in_shared (emit e))
  pub starts : (due : RunDue) → Preserves P (add_request (run_due due))
  pub cleans : (i : ℕ) → Preserves P (add_request (workspace_cleanup i))
  pub publishes : (org i : ℕ) → Preserves P (publish_cancel org i)

module _ {ℓ} {P : ApiDb → Type ℓ} where
  refuse_if-Preserves : (b : Bool) (f : Failure) → Preserves P (refuse_if b f)
  unfolding refuse_if
  refuse_if-Preserves b f = Preserves-if _ _ _ (Preserves-raise f) (Preserves-pure tt)

  -- The guard of roles writes nothing.
  pub as_operator-Preserves :
      {A : Type 0} (t : TenantContext) (work : Exec ApiDb A)
      → Preserves P work
      → Preserves P (as_operator t work)
  unfolding as_operator can_activate
  as_operator-Preserves t work h = Preserves-bind _ _ (refuse_if-Preserves _ _) λ _. h

  check_ready-Preserves : (t : TenantContext) (p : Project) → Preserves P (check_ready t p)
  unfolding check_ready
  check_ready-Preserves t p = Preserves-bind _ _ (Preserves-gets _) λ o.
      Preserves-bind _ _ (refuse_if-Preserves _ _) λ _.
        Preserves-bind _ _ (refuse_if-Preserves _ _) λ _.
          Preserves-bind _ _ (Preserves-gets _) λ kind.
            Preserves-bind _ _ (refuse_if-Preserves _ _) λ _.
              Preserves-bind _ _ (Preserves-gets _) λ repo.
                Preserves-bind _ _ (refuse_if-Preserves _ _) λ _.
                  Preserves-bind _ _ (Preserves-gets _) λ targets.
                    Preserves-bind _ _ (refuse_if-Preserves _ _)
                      λ _. Preserves-bind _ _ (Preserves-gets _) λ lc. refuse_if-Preserves _ _

  or_not_found-Preserves : (o : Option DailyRun) → Preserves P (or_not_found o)
  or_not_found-Preserves none = Preserves-raise _
  or_not_found-Preserves (some r) = Preserves-pure r

  module _ (k : RunRules P) where
    open k use {creates, writes, emits, starts, cleans, publishes}

    pub run_found-Preserves : (t : TenantContext) (p : Option Project) → Preserves P (run_found t p)
    unfolding run_found create_pending
    run_found-Preserves t none = Preserves-raise _
    run_found-Preserves t (some p) = Preserves-bind _ _ (check_ready-Preserves t p) λ _.
        Preserves-bind _ _ (creates _ (λ i. refl))
          λ n. Preserves-bind _ _ (starts _) λ _. Preserves-pure n

    pub cancel-Preserves : (t : TenantContext) (i : ℕ) → Preserves P (cancel t i)
    unfolding cancel get_run
    cancel-Preserves t i = Preserves-bind _ _ (Preserves-gets _) λ now.
        Preserves-bind _ _ (writes _ _ _ (λ x. refl)) λ _.
          Preserves-bind _ _ (Preserves-bind _ _ (Preserves-gets _) λ r. or_not_found-Preserves r)
            λ run.
              Preserves-bind _ _ (emits _) λ _. Preserves-bind _ _ (publishes _ _) λ _. cleans i
