-- ===== src/Api/System/Ids.antt =====
-- Ids of rows under the API and the orchestrator, and the runs that start because of them.
use mergecrew.Base.{ℕ, String, Option, none, some, ◌≡◌, refl, Bool-cases, any, inl, inr}
use mergecrew.Exec.{Exec}
use mergecrew.Exec.Preserves.{
  Preserves, Preserves-bind, Preserves-pure, Preserves-raise, Preserves-gets, Preserves-if,
}
use mergecrew.Graph.{GraphDefinition}
use mergecrew.Config.{MergecrewConfig}
use mergecrew.Config.Sync.{Fetched, sync_lifecycle}
use mergecrew.Orchestrator.Store.{
  tenant_run, Db, DailyRun, Project, ApprovalRequest, Resolution, Event, emit,
}
use mergecrew.Orchestrator.Store.Ids.{fresh-change}
use mergecrew.Orchestrator.RunStart.{handle_run_due}
use mergecrew.Orchestrator.RunStart.Starts.{IsUnderWay, begun}
use mergecrew.Orchestrator.System.Ids.{HasIds, same, create_run-HasIds}
use mergecrew.Orchestrator.System.Keeping.{handle-Preserves}
use mergecrew.Orchestrator.System.Unique.{rules-HasIds}
use mergecrew.Api.{
  TenantContext, ApiDb, Request, in_shared, add_request, publish_cancel, emit_by_user,
  update_tenant_run, find_by_slug,
}
use mergecrew.Api.Runs.{pending_row, due_of, run_now}
use mergecrew.Api.Runs.Accepts.{IsReady}
use mergecrew.Api.Runs.Starts.{run_now-IsUnderWay}
use mergecrew.Api.Keeping.{RunRules, as_operator-Preserves, run_found-Preserves, cancel-Preserves}
use mergecrew.Api.Approvals.{approval_of, update_approval, settle_approval, resolve_found, resolve}
use mergecrew.Api.System.{
  Action, post_run, post_cancel, post_resolve, orchestrate, forget, act, Reachable,
  Reachable_induction,
}

abbrev HasRowIds : ApiDb → Type 0
HasRowIds a = HasIds a.shared

in_shared-HasRowIds :
    {A : Type 0} (work : Exec Db A) → Preserves HasIds work → Preserves HasRowIds (in_shared work)
unfolding in_shared
in_shared-HasRowIds work h = record { after = λ a v. h.after a.shared v }

add_request-HasRowIds : (q : Request) → Preserves HasRowIds (add_request q)
unfolding add_request
add_request-HasRowIds q = record { after = λ a v. v }

emit-HasIds : (e : Event) → Preserves HasIds (emit e)
unfolding emit
emit-HasIds e = record { after = λ db v. same db _ refl refl refl refl refl v }

update_tenant_run-HasIds :
    (org i : ℕ) (f : DailyRun → DailyRun)
    → ((x : DailyRun) → (f x).id ≡ x.id)
    → Preserves HasIds (update_tenant_run org i f)
unfolding update_tenant_run
update_tenant_run-HasIds org i f h = record {
  after = λ db v. elim (Bool-cases (any (tenant_run org i) db.runs)) [
    | inl q ↦ rw q (record {
      runs = fresh-change (λ r. r.id) db.next_id (tenant_run org i) f db.runs (λ x t. h x) v.runs;
      steps = v.steps;
      workflow_runs = v.workflow_runs;
      pauses = v.pauses;
    })
    | inr q ↦ rw q v
  ];
}

update_approval-HasIds :
    (org i : ℕ) (f : ApprovalRequest → ApprovalRequest) → Preserves HasIds (update_approval org i f)
unfolding update_approval
update_approval-HasIds org i f = record {
  after = λ db v. elim (Bool-cases (any (approval_of org i) db.approvals)) [
    | inl q ↦ rw q (same db _ refl refl refl refl refl v)
    | inr q ↦ rw q v
  ];
}

runs-HasRowIds : RunRules HasRowIds
unfolding publish_cancel
runs-HasRowIds = record {
  creates = λ row h. in_shared-HasRowIds _ (create_run-HasIds row h);
  writes = λ org i f h. in_shared-HasRowIds _ (update_tenant_run-HasIds org i f h);
  emits = λ e. in_shared-HasRowIds _ (emit-HasIds e);
  starts = λ due. add_request-HasRowIds _;
  cleans = λ i. add_request-HasRowIds _;
  publishes = λ org i. record { after = λ a v. v };
}

resolve_found-HasRowIds :
    (t : TenantContext) (res : Resolution) (o : Option ApprovalRequest)
    → Preserves HasRowIds (resolve_found t res o)
unfolding resolve_found settle_approval emit_by_user
resolve_found-HasRowIds t res none = Preserves-raise _
resolve_found-HasRowIds t res (some ar) = Preserves-if _ _ _ (Preserves-raise _) (
    Preserves-bind _ _ (Preserves-gets _) λ now.
      Preserves-bind _ _ (in_shared-HasRowIds _ (update_approval-HasIds _ _ _))
        λ _. Preserves-bind _ _ (add_request-HasRowIds _) λ _. record { after = λ a v. v })

module _ (parse_yaml : String → Option GraphDefinition) where
  act-HasRowIds : (x : Action) → Preserves HasRowIds (act parse_yaml x)
  unfolding act forget run_now resolve
  act-HasRowIds (post_run t slug) =
      Preserves-bind _ _
        (as_operator-Preserves t _
          (Preserves-bind _ _ (Preserves-gets _) λ p. run_found-Preserves runs-HasRowIds t p))
        λ n. Preserves-pure tt
  act-HasRowIds (post_cancel t i) = as_operator-Preserves t _ (cancel-Preserves runs-HasRowIds t i)
  act-HasRowIds (post_resolve t i res) =
      as_operator-Preserves t _
        (Preserves-bind _ _ (Preserves-gets _) λ ar. resolve_found-HasRowIds t res ar)
  act-HasRowIds (orchestrate m) = in_shared-HasRowIds _ (handle-Preserves rules-HasIds parse_yaml m)

-- In every state that requests of users and messages of the orchestrator lead to, from one where the ids of rows are in order, a run that the
-- API accepts comes under way when the orchestrator takes its job at once, whatever the project's repository gives: it is
-- running, since then, and its start is announced. The other condition: the project is ready for a run.
pub Reachable-IsUnderWay :
    (parse_yaml : String → Option GraphDefinition) (parse : String → Option MergecrewConfig)
    (base : MergecrewConfig) (fetch : ℕ → Fetched) (start a : ApiDb) (t : TenantContext)
    (slug : String) (p : Project)
    → HasIds start.shared
    → Reachable parse_yaml start a
    → find_by_slug t.organization_id slug a ≡ some p
    → IsReady t p a
    → IsUnderWay a.shared.next_id
        (begun a.shared.next_id a.shared.now (pending_row t.organization_id p.id a.shared.next_id))
        (handle_run_due parse_yaml
          (λ l. (sync_lifecycle parse base fetch p.id l).1)
          (due_of t.organization_id p.id a.shared.next_id)
          (run_now t slug a).1.shared).1
Reachable-IsUnderWay parse_yaml parse base fetch start a t slug p v r e ready =
    let ids : HasRowIds a = Reachable_induction parse_yaml (act-HasRowIds parse_yaml) v r in
    run_now-IsUnderWay parse_yaml parse base fetch t slug p a e ready ids.runs
