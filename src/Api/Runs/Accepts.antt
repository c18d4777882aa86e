-- ===== src/Api/Runs/Accepts.antt =====
-- When `runNow` accepts a run.
use mergecrew.Base.{
  ℕ, String, some, true, false, ◌≡◌, ◌⊎◌, inl, inr, refl, ◌++◌, [], ◌∷◌, ◌+◌, get_or_else, is_some,
  Bool-cases,
}
use mergecrew.Exec.{Exec, ok, raised, invalid, pure, raise, gets, ◌>>=◌}
use mergecrew.Orchestrator.Store.{Project, no_runner, find_organization, create_run}
use mergecrew.Orchestrator.RunStart.{org_paused}
use mergecrew.Api.{TenantContext, ApiDb, run_due, in_shared, add_request, refuse_if, find_by_slug}
use mergecrew.Api.Runs.{
  is_supported, has_dev_target, pending_row, due_of, check_ready, create_pending, run_found,
  run_now,
}

-- What a project needs before a run of it is accepted.
pub record IsReady (t : TenantContext) (p : Project) (a : ApiDb) : Type 0 where
  pub organization_runs : org_paused (find_organization t.organization_id a.shared) ≡ false
  pub project_runs : p.runs_paused ≡ false
  pub runner : is_supported (get_or_else (a.shared.profiles t.organization_id) no_runner) ≡ true
  pub repo : a.connected_repo p.id ≡ true
  pub target : has_dev_target (a.deploy_targets p.id) ≡ true
  pub lifecycle : is_some (a.shared.lifecycle p.id) ≡ true

-- The state with the run's row, and its job in the queue.
abbrev pub launched : TenantContext → Project → ApiDb → ApiDb
launched t p a = record a {
  shared = record (a.shared) {
    runs = a.shared.runs ++ pending_row t.organization_id p.id a.shared.next_id ∷ [];
    next_id = a.shared.next_id + 1;
  };
  requests = a.requests ++ run_due (due_of t.organization_id p.id a.shared.next_id) ∷ [];
}

-- The run is accepted with the next id, or refused with a message while nothing changes.
abbrev pub IsDecided : TenantContext → Project → Exec ApiDb ℕ → ApiDb → Type 0
IsDecided t p answer a =
    (IsReady t p a × (answer a ≡ (ok a.shared.next_id, launched t p a)))
    ⊎ ((¬ IsReady t p a) × ((why : String) × (answer a ≡ (raised (invalid why), a))))

run_found-IsDecided :
    (t : TenantContext) (p : Project) (a : ApiDb) → IsDecided t p (run_found t (some p)) a
unfolding run_found check_ready create_pending in_shared create_run add_request refuse_if raise pure
    gets ◌>>=◌
run_found-IsDecided t p a =
    elim (Bool-cases (org_paused (find_organization t.organization_id a.shared))) [
      | inl q ↦ inr (λ r. cc (q, r.organization_runs), ("runs paused org-wide", rw q refl))
      | inr q1 ↦ elim (Bool-cases p.runs_paused) [
        | inl q ↦
            inr (λ r. cc (q, r.project_runs), ("runs paused for this project", rw (q1, q) refl))
        | inr q2 ↦
            elim (Bool-cases
              (is_supported (get_or_else (a.shared.profiles t.organization_id) no_runner))) [
                | inr q ↦
                    inr (λ r. cc (q, r.runner), ("configure a runner profile", rw (q1, q2, q) refl))
                | inl q3 ↦ elim (Bool-cases (a.connected_repo p.id)) [
                  | inr q ↦
                      inr (λ r. cc (q, r.repo), ("connect a GitHub repo", rw (q1, q2, q3, q) refl))
                  | inl q4 ↦ elim (Bool-cases (has_dev_target (a.deploy_targets p.id))) [
                    | inr q ↦ inr (
                      λ r. cc (q, r.target),
                      ("add a dev deploy target", rw (q1, q2, q3, q4, q) refl),
                    )
                    | inl q5 ↦ elim (Bool-cases (is_some (a.shared.lifecycle p.id))) [
                      | inr q ↦ inr (
                        λ r. cc (q, r.lifecycle),
                        ("project has no lifecycle", rw (q1, q2, q3, q4, q5, q) refl),
                      )
                      | inl q6 ↦ inl (
                        record {
                          organization_runs = q1;
                          project_runs = q2;
                          runner = q3;
                          repo = q4;
                          target = q5;
                          lifecycle = q6;
                        },
                        rw (q1, q2, q3, q4, q5, q6) refl,
                      )
                    ]
                  ]
                ]
              ]
      ]
    ]

-- A run of a project is accepted exactly where neither the organization nor the project is paused, the organization has
-- a runner, and the project a repository, a dev target and a lifecycle. An accepted run has the next id, a pending row and one
-- job in the queue, and else nothing changes; a refusal has a message and changes nothing at all.
pub run_now-IsDecided :
    (t : TenantContext) (slug : String) (p : Project) (a : ApiDb)
    → find_by_slug t.organization_id slug a ≡ some p
    → IsDecided t p (run_now t slug) a
unfolding run_now gets ◌>>=◌
run_now-IsDecided t slug p a e = rw e (run_found-IsDecided t p a)
