-- ===== src/Api/Approvals/Quiet.antt =====
-- What leaves the decisions on an approval alone.
use mergecrew.Base.{
  ℕ, ◌≤◌, ◌<◌, [], ◌∷◌, Bool, true, false, ◌==◌, ◌≡◌, refl, arith, is_some, count_of,
  count_of-append, All,
}
use mergecrew.Exec.{Exec}
use mergecrew.Exec.Preserves.{Preserves}
use mergecrew.Orchestrator.Store.{Db, ApprovalRequest, DailyRun, create_run, emit}
use mergecrew.Api.{
  ApiDb, Request, gate_resume, in_shared, add_request, publish_cancel, update_tenant_run,
}
use mergecrew.Api.Keeping.{RunRules}
use mergecrew.Api.System.{act}

-- A message that resumes the gate of the approval.
abbrev pub resumes : ℕ → Request → Bool
resumes i (gate_resume j res) = j == i
resumes i _ = false

-- The row belongs to the organization, if it is the approval's.
abbrev pub IsOwned : ℕ → ℕ → ApprovalRequest → Type 0
IsOwned org i ar = ar.id ≡ i → ar.organization_id ≡ org

-- The row is resolved, if it is the approval's.
abbrev pub IsSettled : ℕ → ApprovalRequest → Type 0
IsSettled i ar = ar.id ≡ i → is_some ar.resolved_at ≡ true

-- The approval is one of the organization's, its gate was resumed once at most, and if it was, it is resolved.
pub record IsDecidedOnce (org i : ℕ) (a : ApiDb) : Type 0 where
  pub owned : All (IsOwned org i) a.shared.approvals
  pub once : count_of (resumes i) a.requests ≤ 1
  pub settled : 0 < count_of (resumes i) a.requests → All (IsSettled i) a.shared.approvals

module _ (org i : ℕ) where
  -- What writes neither the approvals nor the queue's resumes.
  quiet :
      (a a' : ApiDb)
      → a'.shared.approvals ≡ a.shared.approvals
      → count_of (resumes i) a'.requests ≡ count_of (resumes i) a.requests
      → IsDecidedOnce org i a
      → IsDecidedOnce org i a'
  quiet a a' e n v = record {
    owned = rw e v.owned;
    once = omega (arith, n, v.once);
    settled = λ lt. rw e (v.settled (omega (arith, n, lt)));
  }

  pub in_shared-IsDecidedOnce :
      {A : Type 0} (act : Exec Db A)
      → ((db : Db) → (act db).1.approvals ≡ db.approvals)
      → Preserves (IsDecidedOnce org i) (in_shared act)
  unfolding in_shared
  in_shared-IsDecidedOnce act h = record {
    after = λ a v. quiet a (in_shared act a).1 (h a.shared) refl v;
  }

  add_request-IsDecidedOnce :
      (q : Request) → resumes i q ≡ false → Preserves (IsDecidedOnce org i) (add_request q)
  unfolding add_request
  add_request-IsDecidedOnce q e = record {
    after = λ a v.
        quiet a (add_request q a).1 refl
          (ground (arith, e, count_of-append (resumes i) a.requests (q ∷ []))) v;
  }

  update_tenant_run-approvals :
      (o j : ℕ) (f : DailyRun → DailyRun) (db : Db)
      → (update_tenant_run o j f db).1.approvals ≡ db.approvals
  unfolding update_tenant_run
  update_tenant_run-approvals o j f db = ground arith

  pub runs-IsDecidedOnce : RunRules (IsDecidedOnce org i)
  unfolding create_run emit publish_cancel
  runs-IsDecidedOnce = record {
    creates = λ row h. in_shared-IsDecidedOnce _ (λ db. refl);
    writes = λ o j f h. in_shared-IsDecidedOnce _ (update_tenant_run-approvals o j f);
    emits = λ e. in_shared-IsDecidedOnce _ (λ db. refl);
    starts = λ due. add_request-IsDecidedOnce _ refl;
    cleans = λ j. add_request-IsDecidedOnce _ refl;
    publishes = λ o j. record { after = λ a v. quiet a (publish_cancel o j a).1 refl refl v };
  }
