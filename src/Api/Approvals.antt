-- ===== src/Api/Approvals.antt =====
-- apps/api/src/modules/approval/approval.service.ts. The rows stand in the order of their creation; the slug that the
-- inbox adds to each row is left out.
pub mod Quiet
pub mod Once
use mergecrew.Base.{
  ℕ, String, Option, none, some, List, Bool, not, ◌&&◌, ◌==◌, if◌then◌else◌, any, find, keep,
  is_some,
}
use mergecrew.Exec.{Exec, ok, raised, pure, raise, gets, not_found, forbidden, ◌>>=◌, ◌>>◌}
use mergecrew.Orchestrator.Store.{
  Db, ApprovalRequest, Resolution, approve, reject, takeover, Project, change,
}
use mergecrew.Api.{
  TenantContext, ApiDb, UserEvent, human_approved, human_rejected, gate_resume, in_shared,
  add_request, emit_by_user, find_by_slug,
}

abbrev pub approval_of : ℕ → ℕ → ApprovalRequest → Bool
approval_of org i ar = ar.id == i && ar.organization_id == org

abbrev pub is_unresolved : ApprovalRequest → Bool
is_unresolved ar = not (is_some ar.resolved_at)

abbrev pub open_of_organization : ℕ → ApprovalRequest → Bool
open_of_organization org ar = ar.organization_id == org && is_unresolved ar

unfoldable pub list_inbox : TenantContext → Exec ApiDb (List ApprovalRequest)
list_inbox t = gets (λ a. keep (open_of_organization t.organization_id) a.shared.approvals)

unfoldable pub list_of_project : TenantContext → Option Project → Exec ApiDb (List ApprovalRequest)
list_of_project t none = raise not_found
list_of_project t (some p) = gets (λ a.
    keep (λ ar. ar.project_id == p.id && open_of_organization t.organization_id ar)
      a.shared.approvals)

unfoldable pub list_for_project : TenantContext → String → Exec ApiDb (List ApprovalRequest)
list_for_project t slug = do p ← gets (find_by_slug t.organization_id slug); list_of_project t p

unfoldable pub update_approval : ℕ → ℕ → (ApprovalRequest → ApprovalRequest) → Exec Db Unit
update_approval org i f db =
    if any (approval_of org i) db.approvals
    then (ok tt, record db { approvals = change (approval_of org i) f db.approvals })
    else (raised not_found, db)

abbrev pub decision_event : TenantContext → ApprovalRequest → Resolution → UserEvent
decision_event t ar approve = human_approved ar.workflow_run_id t.user_id approve
decision_event t ar reject = human_rejected ar.workflow_run_id t.user_id reject
decision_event t ar takeover = human_rejected ar.workflow_run_id t.user_id takeover

unfoldable pub settle_approval : TenantContext → ApprovalRequest → Resolution → Exec ApiDb Unit
settle_approval t ar res = do
  now ← gets (λ a. a.shared.now)
  in_shared (
      update_approval t.organization_id ar.id
        (λ x. record x { resolved_at = some now; resolution = some res }))
  add_request (gate_resume ar.id res)
  emit_by_user (decision_event t ar res)

unfoldable pub resolve_found : TenantContext → Resolution → Option ApprovalRequest → Exec ApiDb Unit
resolve_found t res none = raise not_found
resolve_found t res (some ar) =
    if is_some ar.resolved_at
    then raise (forbidden "already resolved")
    else settle_approval t ar res

unfoldable pub resolve : TenantContext → ℕ → Resolution → Exec ApiDb Unit
resolve t i res = do
  ar ← gets (λ a. find (approval_of t.organization_id i) a.shared.approvals)
  resolve_found t res ar
