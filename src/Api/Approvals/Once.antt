-- ===== src/Api/Approvals/Once.antt =====
-- An approval is decided once.
use mergecrew.Base.{
  ℕ, ◌<◌, String, Option, none, some, List, [], ◌∷◌, ◌++◌, Bool, true, false, ◌==◌, ◌≡◌, refl,
  subst, arith, Bool-cases, inl, inr, any, find, is_some, count_of, count_of-append, All, All-Any,
  find-Any,
}
use mergecrew.Exec.{raise, gets, ◌>>=◌}
use mergecrew.Exec.Preserves.{Preserves, Preserves-bind, Preserves-pure, Preserves-gets}
use mergecrew.Graph.{GraphDefinition}
use mergecrew.Orchestrator.Store.{ApprovalRequest, Resolution, change}
use mergecrew.Orchestrator.System.Approvals.{handle-approvals}
use mergecrew.Api.{TenantContext, ApiDb, gate_resume, in_shared, add_request, emit_by_user}
use mergecrew.Api.Runs.{run_now}
use mergecrew.Api.System.{
  Action, post_run, post_cancel, post_resolve, orchestrate, forget, act, Reachable,
  Reachable_induction,
}
use mergecrew.Api.Approvals.{approval_of, update_approval, settle_approval, resolve_found, resolve}
use mergecrew.Api.Keeping.{as_operator-Preserves, run_found-Preserves, cancel-Preserves}
use mergecrew.Api.Approvals.Quiet.{
  resumes, IsOwned, IsSettled, IsDecidedOnce, in_shared-IsDecidedOnce, runs-IsDecidedOnce,
}

All-change :
    {A : Type 0} {P Q : A → Type 0} (q : A → Bool) (f : A → A) (xs : List A)
    → ((x : A) → q x ≡ true → P x → Q (f x))
    → ((x : A) → q x ≡ false → P x → Q x)
    → All P xs
    → All Q (change q f xs)
All-change q f [] yes_case no_case h = tt
All-change q f (x ∷ xs) yes_case no_case (p, h) = elim (Bool-cases (q x)) [
  | inl e ↦ rw e (yes_case x e p, All-change q f xs yes_case no_case h)
  | inr e ↦ rw e (no_case x e p, All-change q f xs yes_case no_case h)
]

-- What is found by the organization and the id.
found :
    (P : ApprovalRequest → Type 0) (o j : ℕ) (ar : ApprovalRequest) (xs : List ApprovalRequest)
    → find (approval_of o j) xs ≡ some ar
    → All P xs
    → (approval_of o ar.id ar ≡ true) × P ar
found P o j ar xs e h =
    let (y, p, (same, t)) = All-Any (find-Any (approval_of o j) xs e) h in
    subst (λ z. (approval_of o z.id z ≡ true) × P z) same (ground arith, p)

module _ (org i : ℕ) (t : TenantContext) (now : ℕ) (res : Resolution) where
  decide : ApprovalRequest → ApprovalRequest
  decide x = record x { resolved_at = some now; resolution = some res }

  -- The state with the row written and the message queued.
  decided : ApprovalRequest → ApiDb → ApiDb
  decided ar a = record a {
    shared = record (a.shared) {
      approvals = change (approval_of t.organization_id ar.id) decide a.shared.approvals;
    };
    requests = a.requests ++ gate_resume ar.id res ∷ [];
  }

  decided-IsOwned :
      (ar : ApprovalRequest) (a : ApiDb)
      → All (IsOwned org i) a.shared.approvals
      → All (IsOwned org i) (decided ar a).shared.approvals
  unfolding decided decide
  decided-IsOwned ar a h = All-change _ decide a.shared.approvals (λ x e p. p) (λ x e p. p) h

  -- The approval itself: its message is the first, and all its rows are written.
  own-IsDecidedOnce :
      (j : ℕ) (ar : ApprovalRequest) (a : ApiDb)
      → find (approval_of t.organization_id j) a.shared.approvals ≡ some ar
      → is_some ar.resolved_at ≡ false
      → ar.id ≡ i
      → IsDecidedOnce org i a
      → IsDecidedOnce org i (decided ar a)
  unfolding decided decide
  own-IsDecidedOnce j ar a e open_row same v =
      let (seen, own) = found (IsOwned org i) t.organization_id j ar a.shared.approvals e v.owned in
      let late : ¬ (0 < count_of (resumes i) a.requests) = λ lt. cc (
        open_row,
        (found (IsSettled i) t.organization_id j ar a.shared.approvals e (v.settled lt)).1 same,
      ) in
      record {
        owned = decided-IsOwned ar a v.owned;
        once = ground (
          arith,
          same,
          late,
          count_of-append (resumes i) a.requests (gate_resume ar.id res ∷ []),
        );
        settled = λ lt.
            All-change _ decide a.shared.approvals (λ x q p h. refl)
              (λ x q p h. absurd (ground (arith, q, p h, own same, seen, h, same))) v.owned;
      }

  other-IsDecidedOnce :
      (ar : ApprovalRequest) (a : ApiDb)
      → (ar.id == i) ≡ false
      → IsDecidedOnce org i a
      → IsDecidedOnce org i (decided ar a)
  unfolding decided decide
  other-IsDecidedOnce ar a other v =
      let same : count_of (resumes i) (decided ar a).requests ≡ count_of (resumes i) a.requests =
        ground
          (arith, other, count_of-append (resumes i) a.requests (gate_resume ar.id res ∷ [])) in
      record {
        owned = decided-IsOwned ar a v.owned;
        once = omega (arith, same, v.once);
        settled = λ lt.
            All-change _ decide a.shared.approvals (λ x q p h. refl) (λ x q p. p)
              (v.settled (omega (arith, same, lt)));
      }

module _ (org i : ℕ) (t : TenantContext) where
  settle_approval-IsDecidedOnce :
      (j : ℕ) (res : Resolution) (ar : ApprovalRequest) (a : ApiDb)
      → find (approval_of t.organization_id j) a.shared.approvals ≡ some ar
      → is_some ar.resolved_at ≡ false
      → IsDecidedOnce org i a
      → IsDecidedOnce org i (settle_approval t ar res a).1
  unfolding settle_approval in_shared update_approval add_request emit_by_user gets ◌>>=◌ decided
      decide
  settle_approval-IsDecidedOnce j res ar a e open_row v =
      elim (Bool-cases (any (approval_of t.organization_id ar.id) a.shared.approvals)) [
        | inr q ↦ rw q v
        | inl q ↦
            let after : IsDecidedOnce org i (decided org i t a.shared.now res ar a) =
              elim (Bool-cases (ar.id == i)) [
                | inl s ↦
                    own-IsDecidedOnce org i t a.shared.now res j ar a e open_row (ground (arith, s))
                      v
                | inr s ↦ other-IsDecidedOnce org i t a.shared.now res ar a s v
              ] in
            rw q (record { owned = after.owned; once = after.once; settled = after.settled })
      ]

  resolve_found-IsDecidedOnce :
      (j : ℕ) (res : Resolution) (o : Option ApprovalRequest) (a : ApiDb)
      → find (approval_of t.organization_id j) a.shared.approvals ≡ o
      → IsDecidedOnce org i a
      → IsDecidedOnce org i (resolve_found t res o a).1
  unfolding resolve_found raise
  resolve_found-IsDecidedOnce j res none a e v = v
  resolve_found-IsDecidedOnce j res (some ar) a e v = elim (Bool-cases (is_some ar.resolved_at)) [
    | inl q ↦ rw q v
    | inr q ↦ rw q (settle_approval-IsDecidedOnce j res ar a e q v)
  ]

  resolve-IsDecidedOnce :
      (j : ℕ) (res : Resolution) → Preserves (IsDecidedOnce org i) (resolve t j res)
  unfolding resolve gets ◌>>=◌
  resolve-IsDecidedOnce j res = record {
    after = λ a v. resolve_found-IsDecidedOnce j res _ a refl v;
  }

module _ (parse_yaml : String → Option GraphDefinition) (org i : ℕ) where
  act-IsDecidedOnce : (x : Action) → Preserves (IsDecidedOnce org i) (act parse_yaml x)
  unfolding act forget run_now
  act-IsDecidedOnce (post_run t slug) =
      Preserves-bind _ _
        (as_operator-Preserves t _ (
          Preserves-bind _ _ (Preserves-gets _)
            λ p. run_found-Preserves (runs-IsDecidedOnce org i) t p))
        λ n. Preserves-pure tt
  act-IsDecidedOnce (post_cancel t j) =
      as_operator-Preserves t _ (cancel-Preserves (runs-IsDecidedOnce org i) t j)
  act-IsDecidedOnce (post_resolve t j res) =
      as_operator-Preserves t _ (resolve-IsDecidedOnce org i t j res)
  act-IsDecidedOnce (orchestrate m) =
      in_shared-IsDecidedOnce org i _ (handle-approvals parse_yaml m)

-- In a state where an approval is one of the organization's, its gate was resumed once at most, and it is resolved if it
-- was, the same holds after any requests of users to start runs, to cancel them and to decide approvals, and any messages
-- of the orchestrator, in any order, each handled to its end before the next: no approval's gate is resumed twice.
pub Reachable-IsDecidedOnce :
    (parse_yaml : String → Option GraphDefinition) (org i : ℕ) (start a : ApiDb)
    → IsDecidedOnce org i start
    → Reachable parse_yaml start a
    → IsDecidedOnce org i a
Reachable-IsDecidedOnce parse_yaml org i start a v r =
    Reachable_induction parse_yaml (act-IsDecidedOnce parse_yaml org i) v r
