-- ===== src/Orchestrator/Replies/Resuming.antt =====
-- Invariants of `resumeGate`, from the writes that it makes.
use mergecrew.Base.{ℕ, String, Option, none, some, ◌≡◌, refl}
use mergecrew.Exec.Preserves.{
  Preserves, Preserves-bind, Preserves-if, Preserves-pure, Preserves-gets,
}
use mergecrew.Graph.{GraphDefinition}
use mergecrew.Orchestrator.Store.{
  Db, AgentStep, StepStatus, RunPause, ApprovalRequest, update_step, update_pauses,
}
use mergecrew.Orchestrator.Dispatch.{Scope}
use mergecrew.Orchestrator.Dispatch.Keeping.{EnqueueRules, enqueue_runner_step-Preserves}
use mergecrew.Orchestrator.Flow.Keeping.{
  ReplyRules, ends_scope_run, maybe_advance_workflow-Preserves,
}
use mergecrew.Orchestrator.Replies.{
  Resolution, approve, reject, takeover, fail_gated, refuse_gate, settle_gate, resume_run, requeue,
  requeue_step, resume_pause, advance_if, approval_scope,
}

-- A step goes back to `pending`, and pauses are closed.
pub record ResumeRules {ℓ} (P : Db → Type ℓ) (r : ℕ) : Type ℓ where
  pub replies : ReplyRules P r
  pub requeues :
      (i : ℕ) → Preserves P (update_step i (λ s. record s { status = StepStatus.pending }))
  pub closes :
      (p : RunPause → _) (f : RunPause → RunPause)
      → ((q : RunPause) → (f q).id ≡ q.id)
      → Preserves P (update_pauses p f)

module _ {ℓ} {P : Db → Type ℓ} (k : EnqueueRules P)
    (requeues : (i : ℕ)
      → Preserves P (update_step i (λ s. record s { status = StepStatus.pending })))
    (sc : Scope) where
  requeue-Preserves : (s : Option AgentStep) → Preserves P (requeue sc s)
  requeue-Preserves none = Preserves-pure tt
  requeue-Preserves (some s) =
      Preserves-bind _ _ (requeues s.id) λ _. enqueue_runner_step-Preserves k _

  pub requeue_step-Preserves : (i : Option ℕ) → Preserves P (requeue_step sc i)
  unfolding requeue_step
  requeue_step-Preserves none = Preserves-pure tt
  requeue_step-Preserves (some i) = Preserves-bind _ _ (Preserves-gets _) λ s. requeue-Preserves s

module _ {ℓ} {P : Db → Type ℓ} {r : ℕ} (k : ResumeRules P r) (sc : Scope) (e : sc.run_id ≡ r) where
  open k use {replies, requeues}
  open k.replies.starts.enqueue use {emits, settles}

  resume_run-Preserves : Preserves P (resume_run sc.run_id)
  unfolding resume_run
  resume_run-Preserves =
      Preserves-bind _ _ (Preserves-gets _)
        λ n. Preserves-if _ _ _ (ends_scope_run replies sc e _ (λ x. refl)) (Preserves-pure tt)

  fail_gated-Preserves : (res : Resolution) (i : Option ℕ) → Preserves P (fail_gated res i)
  fail_gated-Preserves res none = Preserves-pure tt
  fail_gated-Preserves res (some i) =
      Preserves-bind _ _ (Preserves-gets _) λ now. settles i _ (λ s. (refl, refl, refl, refl, refl))

  module _ (parse_yaml : String → Option GraphDefinition) where
    advance_if-Preserves : (i : Option ℕ) → Preserves P (advance_if parse_yaml sc i)
    advance_if-Preserves none = Preserves-pure tt
    advance_if-Preserves (some i) = maybe_advance_workflow-Preserves replies sc e parse_yaml

    refuse_gate-Preserves :
        (res : Resolution) (i : Option ℕ) → Preserves P (refuse_gate parse_yaml res sc i)
    unfolding refuse_gate
    refuse_gate-Preserves res i = Preserves-bind _ _ (Preserves-gets _) λ n.
        Preserves-bind _ _ (fail_gated-Preserves res i) λ _.
          Preserves-bind _ _
            (Preserves-if _ _ _ (ends_scope_run replies sc e _ (λ x. refl)) (Preserves-pure tt))
            λ _. Preserves-bind _ _ (emits _) λ _. advance_if-Preserves i

    pub settle_gate-Preserves :
        (res : Resolution) (i : Option ℕ) → Preserves P (settle_gate parse_yaml res sc i)
    unfolding settle_gate
    settle_gate-Preserves approve i = Preserves-bind _ _ resume_run-Preserves λ _.
        Preserves-bind _ _ (emits _)
          λ _. requeue_step-Preserves replies.starts.enqueue requeues sc i
    settle_gate-Preserves reject i = refuse_gate-Preserves reject i
    settle_gate-Preserves takeover i = refuse_gate-Preserves takeover i

module _ {ℓ} {P : Db → Type ℓ} (parse_yaml : String → Option GraphDefinition) where
  pub resume_pause-Preserves :
      (res : Resolution) (ar : ApprovalRequest) (p : RunPause)
      → ResumeRules P p.daily_run_id
      → Preserves P (resume_pause parse_yaml res ar (some p))
  resume_pause-Preserves res ar p k = Preserves-bind _ _ (Preserves-gets _) λ now.
      Preserves-bind _ _ (k.closes _ _ (λ q. refl))
        λ _. settle_gate-Preserves k (approval_scope ar p) refl parse_yaml res p.step_id
