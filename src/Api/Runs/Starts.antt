-- ===== src/Api/Runs/Starts.antt =====
-- A run that the API accepts is started by the orchestrator.
use mergecrew.Base.{
  ℕ, String, Option, none, some, List, [], ◌∷◌, ◌++◌, ◌≡◌, ◌<◌, ◌==◌, refl, sym, subst, ap, arith,
  inl, inr, find, All, find-Any, Any-some, and-eq-true, ==_iff, ◌∙◌, false,
}
use mergecrew.Graph.{GraphDefinition}
use mergecrew.Orchestrator.Store.{Db, DailyRun, Project, run_is, tenant_project, find_organization}
use mergecrew.Orchestrator.Store.Ids.{IsFresh}
use mergecrew.Config.{MergecrewConfig}
use mergecrew.Config.Sync.{Fetched, sync_lifecycle, sync_lifecycle-keeps}
use mergecrew.Orchestrator.RunStart.{org_paused, handle_run_due}
use mergecrew.Orchestrator.RunStart.Starts.{IsUnderWay, begun, handle_run_due-IsUnderWay}
use mergecrew.Api.{TenantContext, ApiDb, find_in, find_by_slug}
use mergecrew.Api.Runs.{pending_row, due_of, run_now}
use mergecrew.Api.Runs.Accepts.{IsReady, launched, run_now-IsDecided}

-- A new row is found where all ids before are below its own.
find-appended :
    (n : ℕ) (new : DailyRun) (xs : List DailyRun)
    → new.id ≡ n
    → All (λ r. r.id < n) xs
    → find (run_is n) (xs ++ (new ∷ [])) ≡ some new
find-appended n new [] e h = ground arith
find-appended n new (x ∷ xs) e (lt, h) = ground (arith, find-appended n new xs e h)

found_in :
    (org : ℕ) (o : Option ℕ) (p : Project) (db : Db)
    → find_in org o db ≡ some p
    → (find (tenant_project org p.id) db.projects ≡ some p) × (p.organization_id ≡ org)
found_in org none p db e = cc
found_in org (some i) p db e =
    let (q, (same, t)) = Any-some (find-Any (tenant_project org i) db.projects e) in
    let (a, b) = and-eq-true (q.id == i) (q.organization_id == org) t in
    let its : i ≡ p.id = sym ((==_iff q.id i).0 a) ∙ ap (λ (x : Project). x.id) same in
    (
      subst (λ k. find (tenant_project org k) db.projects ≡ some p) its e,
      sym (ap (λ (x : Project). x.organization_id) same) ∙ (==_iff q.organization_id org).0 b,
    )

-- A run that the API accepts comes under way when the orchestrator takes its job at once, whatever the project's repository
-- gives: it is running, since then, and its start is announced. The conditions: the project is ready, and ids of runs
-- are below the next id.
pub run_now-IsUnderWay :
    (parse_yaml : String → Option GraphDefinition) (parse : String → Option MergecrewConfig)
    (base : MergecrewConfig) (fetch : ℕ → Fetched) (t : TenantContext) (slug : String) (p : Project)
    (a : ApiDb)
    → find_by_slug t.organization_id slug a ≡ some p
    → IsReady t p a
    → IsFresh (λ (r : DailyRun). r.id) a.shared.next_id a.shared.runs
    → IsUnderWay a.shared.next_id
        (begun a.shared.next_id a.shared.now (pending_row t.organization_id p.id a.shared.next_id))
        (handle_run_due parse_yaml
          (λ l. (sync_lifecycle parse base fetch p.id l).1)
          (due_of t.organization_id p.id a.shared.next_id)
          (run_now t slug a).1.shared).1
run_now-IsUnderWay parse_yaml parse base fetch t slug p a e ready fresh =
    let i = a.shared.next_id in
    let row = pending_row t.organization_id p.id i in
    let (lc, kept) =
      sync_lifecycle-keeps parse base fetch p.id a.shared.lifecycle ready.lifecycle in
    let seen = found_in t.organization_id (a.project_of t.organization_id slug) p a.shared e in
    let done =
      handle_run_due-IsUnderWay parse_yaml (λ l. (sync_lifecycle parse base fetch p.id l).1)
        (due_of t.organization_id p.id i) p lc i row (launched t p a).shared seen.0
        (subst (λ o. org_paused (find_organization o a.shared) ≡ false) (sym seen.1)
          ready.organization_runs)
        ready.project_runs kept refl (find-appended i row a.shared.runs refl fresh.below) refl
        refl in
    elim (run_now-IsDecided t slug p a e) [
      | inl (r, accepted) ↦ rw accepted done
      | inr (refused, why) ↦ absurd (refused ready)
    ]
