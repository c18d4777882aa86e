-- ===== src/Api/Runs/Cancels.antt =====
-- What the cancellation of a run stops.
use mergecrew.Base.{
  ℕ, String, Option, none, some, List, [], ◌∷◌, Bool, true, false, ◌≡◌, ◌≢◌, refl, ap, ◌∙◌, ◌++◌,
  arith, if◌then◌else◌, Any, Any-map, Any-some, find-Any, any_complete, Bool-cases, any, find, inl,
  inr, find_total,
}
use mergecrew.Exec.{ok, raised, not_found, pure, gets, ◌>>=◌}
use mergecrew.Orchestrator.Store.{
  tenant_run, Db, DailyRun, DailyRunStatus, WaitJob, AgentDefinition, run_is, find_run, change,
  emit,
}
use mergecrew.Orchestrator.Dispatch.{
  Scope, dispatch_resolved, dispatch_agent_step, handle_org_cap_wait,
}
use mergecrew.Api.{TenantContext, ApiDb, in_shared, add_request, publish_cancel, update_tenant_run}
use mergecrew.Api.Runs.{get_run, cancel}

-- No step is dispatched in a cancelled run.
dispatch_resolved-cancelled :
    (sc : Scope) (ref : String) (d : Option AgentDefinition) (key : Option String) (r : DailyRun)
    (db : Db)
    → find_run sc.run_id db ≡ some r
    → r.status ≡ DailyRunStatus.cancelled
    → (dispatch_resolved sc ref d key db) ≡ (ok tt, db)
unfolding dispatch_resolved pure gets ◌>>=◌
dispatch_resolved-cancelled sc ref none key r db e c = refl
dispatch_resolved-cancelled sc ref (some d) key r db e c = rw (e, c) refl

pub handle_org_cap_wait-cancelled :
    (w : WaitJob) (r : DailyRun) (db : Db)
    → find_run w.run_id db ≡ some r
    → r.status ≡ DailyRunStatus.cancelled
    → handle_org_cap_wait w db ≡ (ok tt, db)
unfolding handle_org_cap_wait dispatch_agent_step gets ◌>>=◌
handle_org_cap_wait-cancelled w r db e c = dispatch_resolved-cancelled _ w.agent_ref _ none r db e c

-- A search after a write of rows that it does not see, and of the first row that it sees.
find-change_other :
    {A : Type 0} (p q : A → Bool) (f : A → A) (xs : List A)
    → ((x : A) → q x ≡ true → p x ≡ false)
    → ((x : A) → p (f x) ≡ p x)
    → find p (change q f xs) ≡ find p xs
find-change_other p q f [] apart same = refl
find-change_other p q f (x ∷ xs) apart same = elim (Bool-cases (q x)) [
  | inl h ↦ rw (h, same x, apart x h) (find-change_other p q f xs apart same)
  | inr h ↦ rw h (ap (λ rest. if p x then some x else rest) (find-change_other p q f xs apart same))
]

find-change_first :
    {A : Type 0} (p q : A → Bool) (f : A → A) (xs : List A) (r : A)
    → ((x : A) → p (f x) ≡ p x)
    → find p xs ≡ some r
    → q r ≡ true
    → find p (change q f xs) ≡ some (f r)
find-change_first p q f [] r same e h = cc
find-change_first p q f (x ∷ xs) r same e h = elim (Bool-cases (p x)) [
  | inl b ↦
      let here : x ≡ r = ground (arith, rw b at e) in
      let met : q x ≡ true = ap q here ∙ h in rw (met, same x, b) (ap (λ y. some (f y)) here)
  | inr b ↦
      let later = find-change_first p q f xs r same (rw b at e) h in
      elim (Bool-cases (q x)) [
        | inl met ↦ rw (met, same x, b) later
        | inr unmet ↦ rw (unmet, b) later
      ]
]

-- The row of a cancelled run.
abbrev pub cancelled_row : ℕ → DailyRun → DailyRun
cancelled_row now r = record r { status = DailyRunStatus.cancelled; finished_at = some now }

-- What a cancellation leaves: the run is cancelled, the others are as before, the runners are told once, and a dispatch that waits
-- for the run comes to nothing.
pub record IsCancelled (t : TenantContext) (i : ℕ) (r : DailyRun) (a a' : ApiDb) : Type 0 where
  pub stored : find_run i a'.shared ≡ some (cancelled_row a.shared.now r)
  pub others : (j : ℕ) → i ≢ j → find_run j a'.shared ≡ find_run j a.shared
  pub told : a'.cancels ≡ a.cancels ++ ((t.organization_id, i) ∷ [])
  pub stops : (w : WaitJob) → w.run_id ≡ i → handle_org_cap_wait w a'.shared ≡ (ok tt, a'.shared)

module _ (t : TenantContext) (i : ℕ) (r : DailyRun) (a : ApiDb) where
  -- The database with the row written.
  written : Db
  written = record (a.shared) {
    runs = change (tenant_run t.organization_id i) (cancelled_row a.shared.now) a.shared.runs;
  }

  of_tenant :
      find_run i a.shared ≡ some r
      → r.organization_id ≡ t.organization_id
      → tenant_run t.organization_id i r ≡ true
  of_tenant e o =
      let (q, (same, h)) = Any-some (find-Any (run_is i) a.shared.runs e) in
      ground (arith, ap (λ (x : DailyRun). x.id) same, h, o)

  written-stored :
      find_run i a.shared ≡ some r
      → r.organization_id ≡ t.organization_id
      → find_run i written ≡ some (cancelled_row a.shared.now r)
  unfolding written
  written-stored e o =
      find-change_first (run_is i) (tenant_run t.organization_id i) (cancelled_row a.shared.now)
        a.shared.runs r (λ x. refl) e (of_tenant e o)

  written-others : (j : ℕ) → i ≢ j → find_run j written ≡ find_run j a.shared
  unfolding written
  written-others j ne =
      find-change_other (run_is j) (tenant_run t.organization_id i) (cancelled_row a.shared.now)
        a.shared.runs (λ x h. ground (arith, ne)) (λ x. refl)

  visible :
      (xs : List DailyRun) (x : DailyRun)
      → find (run_is i) xs ≡ some x
      → x.organization_id ≡ t.organization_id
      → Any (λ y. tenant_run t.organization_id i y ≡ true) xs
  visible xs x e o =
      Any-map (λ y (same, h). ground (arith, h, ap (λ (z : DailyRun). z.organization_id) same, o))
        (find-Any (run_is i) xs e)

  -- The cancellation of a run of the tenant succeeds, whatever the run's status was: the run is cancelled, since now, the other
  -- runs are as before, the runners are told, and a dispatch that waits for the run comes to nothing.
  pub cancel-IsCancelled :
      find_run i a.shared ≡ some r
      → r.organization_id ≡ t.organization_id
      → ((cancel t i a).0 ≡ ok tt) × IsCancelled t i r a (cancel t i a).1
  unfolding cancel get_run in_shared update_tenant_run emit publish_cancel add_request pure gets
      ◌>>=◌ written
  cancel-IsCancelled e o =
      let stored = written-stored e o in
      let there = any_complete _ a.shared.runs (visible a.shared.runs r e o) in
      let (x, found) = find_total _ written.runs (visible written.runs _ stored o) in
      rw (there, found)
        (
          refl,
          record {
            stored = stored;
            others = written-others;
            told = refl;
            stops = λ w same.
                handle_org_cap_wait-cancelled w (cancelled_row a.shared.now r) _ (rw same stored)
                  refl;
          },
        )

-- A run that is not one of the tenant's cannot be cancelled by it, and nothing changes.
cancel-not_found :
    (t : TenantContext) (i : ℕ) (a : ApiDb)
    → any (tenant_run t.organization_id i) a.shared.runs ≡ false
    → cancel t i a ≡ (raised not_found, a)
unfolding cancel in_shared update_tenant_run gets ◌>>=◌
cancel-not_found t i a e = rw e refl
