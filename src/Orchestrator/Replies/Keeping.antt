-- ===== src/Orchestrator/Replies/Keeping.antt =====
-- Invariants of the handlers of replies and resumes, from the writes that they make.
use mergecrew.Base.{ℕ, String, Option, false, ◌≡◌, refl}
use mergecrew.Exec.Preserves.{
  Preserves, Preserves-bind, Preserves-if, Preserves-pure, Preserves-gets,
}
use mergecrew.Graph.{GraphDefinition}
use mergecrew.Orchestrator.Store.{Db, StepStatus, StepOutput, is_inflight}
use mergecrew.Orchestrator.Dispatch.{Scope}
use mergecrew.Orchestrator.Flow.Keeping.{
  ReplyRules, ends_scope_run, dispatch_graph_next-Preserves, maybe_advance_workflow-Preserves,
}
use mergecrew.Orchestrator.Replies.{
  StepOutcome, completed, failed, rate_limited, gated_reject, gate_pending, cancelled,
  budget_exhausted, pause_for_gate, pause_for_rate_limit, fail_step, complete_step, after_step,
  on_step_reply,
}

module _ {ℓ} {P : Db → Type ℓ} {r : ℕ} (k : ReplyRules P r) (sc : Scope) (e : sc.run_id ≡ r) where
  open k use {ends_run, pauses}
  open k.starts.enqueue use {emits, queues, settles}

  pause_for_gate-Preserves :
      (i a : ℕ) (why : Option String) → Preserves P (pause_for_gate sc i a why)
  unfolding pause_for_gate
  pause_for_gate-Preserves i a why =
      Preserves-bind _ _ (settles i _ (λ s. (refl, refl, refl, refl, refl)))
        λ _. Preserves-bind _ _ (ends_scope_run k sc e _ (λ x. refl)) λ _. emits _

  pause_for_rate_limit-Preserves : (i t j : ℕ) → Preserves P (pause_for_rate_limit sc i t j)
  unfolding pause_for_rate_limit
  pause_for_rate_limit-Preserves i t j = Preserves-bind _ _ (Preserves-gets _) λ now.
      Preserves-bind _ _ (pauses _ (λ n. refl)) λ _.
        Preserves-bind _ _ (ends_scope_run k sc e _ (λ x. refl))
          λ _. Preserves-bind _ _ (emits _) λ _. queues _

  fail_step-Preserves :
      (i : ℕ) (x : StepStatus) (why : String)
      → is_inflight x ≡ false
      → Preserves P (fail_step sc i x why)
  unfolding fail_step
  fail_step-Preserves i x why q =
      Preserves-bind _ _ (Preserves-gets _)
        λ now. Preserves-bind _ _ (settles i _ (λ s. (refl, refl, refl, refl, q))) λ _. emits _

  complete_step-Preserves :
      (i : ℕ) (o : Option StepOutput) (n : Option ℕ) → Preserves P (complete_step sc i o n)
  unfolding complete_step
  complete_step-Preserves i o n =
      Preserves-bind _ _ (Preserves-gets _)
        λ now. Preserves-bind _ _ (settles i _ (λ s. (refl, refl, refl, refl, refl))) λ _. emits _

  module _ (parse_yaml : String → Option GraphDefinition) where
    pub on_step_reply-Preserves :
        (i : ℕ) (o : StepOutcome) → Preserves P (on_step_reply parse_yaml sc i o)
    unfolding on_step_reply after_step
    on_step_reply-Preserves i (completed output total) =
        Preserves-bind _ _ (complete_step-Preserves i output total) λ _.
          Preserves-bind _ _ (dispatch_graph_next-Preserves k.starts sc e parse_yaml i) λ b.
            Preserves-if _ _ _ (Preserves-pure tt)
              (maybe_advance_workflow-Preserves k sc e parse_yaml)
    on_step_reply-Preserves i (gate_pending a why) = pause_for_gate-Preserves i a why
    on_step_reply-Preserves i (rate_limited t j) = pause_for_rate_limit-Preserves i t j
    on_step_reply-Preserves i (failed why) =
        Preserves-bind _ _ (fail_step-Preserves i _ why refl)
          λ _. maybe_advance_workflow-Preserves k sc e parse_yaml
    on_step_reply-Preserves i (gated_reject why) =
        Preserves-bind _ _ (fail_step-Preserves i _ why refl)
          λ _. maybe_advance_workflow-Preserves k sc e parse_yaml
    on_step_reply-Preserves i (budget_exhausted why) =
        Preserves-bind _ _ (fail_step-Preserves i _ _ refl)
          λ _. maybe_advance_workflow-Preserves k sc e parse_yaml
    on_step_reply-Preserves i cancelled =
        Preserves-bind _ _ (fail_step-Preserves i _ _ refl)
          λ _. maybe_advance_workflow-Preserves k sc e parse_yaml
