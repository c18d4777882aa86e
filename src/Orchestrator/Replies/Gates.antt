-- ===== src/Orchestrator/Replies/Gates.antt =====
-- Gates and the advance of workflows.
use mergecrew.Base.{
  ℕ, String, Option, none, some, List, [], ◌∷◌, ◌++◌, Bool, true, false, ◌≡◌, refl, arith, any,
  find, Any, here, there, Any-map, count-pos, any_complete, ==_iff, lt→ltb,
}
use mergecrew.Exec.{ok, gets, ◌>>=◌, ◌>>◌}
use mergecrew.Exec.Preserves.{Preserves, Preserves-bind, Preserves-pure, Preserves-gets}
use mergecrew.Orchestrator.Dispatch.Keeping.{enqueue_runner_step-Preserves}
use mergecrew.Orchestrator.Replies.Isolation.{HasRun, enqueue-HasRun}
use mergecrew.Graph.{GraphDefinition}
use mergecrew.Orchestrator.Store.{
  Db, DailyRun, DailyRunStatus, AgentStep, StepStatus, update_step, update_run, emit, step_is,
  run_is, change, find_run, find_step, is_terminal, run_paused_gate, run_resumed, approval, nothing,
  update_pauses,
}
use mergecrew.Orchestrator.Dispatch.{Scope}
use mergecrew.Orchestrator.Flow.{maybe_advance_workflow, unfinished}
use mergecrew.Orchestrator.Replies.{
  pause_for_gate, on_step_reply, gate_pending, resume_rate_limit, event, wake_step,
}

-- A step of the workflow run that is not in a terminal state.
abbrev pub IsOpen : ℕ → AgentStep → Type 0
IsOpen w s = (s.workflow_run_id ≡ w) × (is_terminal s.status ≡ false)

open_unfinished : (w : ℕ) (s : AgentStep) → IsOpen w s → unfinished w s ≡ true
open_unfinished w s q = ground arith

-- While any step of a workflow run is not terminal, be it paused, the workflow does not advance and
-- nothing is written.
pub maybe_advance_waits :
    (parse_yaml : String → Option GraphDefinition) (sc : Scope) (db : Db)
    → Any (IsOpen sc.workflow_run_id) db.steps
    → maybe_advance_workflow parse_yaml sc db ≡ (ok tt, db)
unfolding maybe_advance_workflow ◌>>=◌
maybe_advance_waits parse_yaml sc db a =
    let open_steps = Any-map (λ s (q : IsOpen sc.workflow_run_id s). open_unfinished _ s q) a in
    rw (lt→ltb 0 _ (count-pos (unfinished sc.workflow_run_id) open_steps)) refl

change-Any :
    {P : AgentStep → Type 0} {Q : AgentStep → Type 0} (i : ℕ) (f : AgentStep → AgentStep)
    → ((s : AgentStep) → P s → (step_is i s ≡ true) × Q (f s))
    → {xs : List AgentStep} → Any P xs
    → Any Q (change (step_is i) f xs)
change-Any i f h (here {x} p) = here (rw (h x p).0 (h x p).1)
change-Any i f h (there a) = there (change-Any i f h a)

-- The state after such a reply.
abbrev gated : Scope → ℕ → ℕ → Option String → Db → Db
gated sc i approval_id why db = record db {
  steps = change (step_is i) (λ s. record s { status = StepStatus.paused_gate }) db.steps;
  runs = change (run_is sc.run_id) (λ r. record r { status = DailyRunStatus.paused_gate }) db.runs;
  events = db.events ++ event sc run_paused_gate (some i) (approval approval_id why) ∷ [];
}

-- The pause that a runner asks for is a barrier: the reply that a gate is pending for a step of this
-- workflow run succeeds, and after it the workflow does not advance.
pub gate_pending-blocks :
    (parse_yaml : String → Option GraphDefinition) (sc : Scope) (i approval_id : ℕ)
    (why : Option String) (db : Db)
    → Any (λ s. (s.id ≡ i) × (s.workflow_run_id ≡ sc.workflow_run_id)) db.steps
    → Any (λ r. r.id ≡ sc.run_id) db.runs
    → (db' : Db) × (on_step_reply parse_yaml sc i (gate_pending approval_id why) db ≡ (ok tt, db'))
      × (maybe_advance_workflow parse_yaml sc db' ≡ (ok tt, db'))
unfolding on_step_reply pause_for_gate update_step update_run emit ◌>>=◌
gate_pending-blocks parse_yaml sc i approval_id why db a b =
    let known_step : any (step_is i) db.steps ≡ true = any_complete _ _ (
      Any-map
        (λ s (q : (s.id ≡ i) × (s.workflow_run_id ≡ sc.workflow_run_id)). (==_iff s.id i).1 q.0)
        a) in
    let known_run : any (run_is sc.run_id) db.runs ≡ true =
      any_complete _ _ (Any-map (λ r (q : r.id ≡ sc.run_id). (==_iff r.id sc.run_id).1 q) b) in
    (
      gated sc i approval_id why db,
      rw (known_step, known_run) refl,
      maybe_advance_waits parse_yaml sc (gated sc i approval_id why db) (
          change-Any i _
            (λ s (q : (s.id ≡ i) × (s.workflow_run_id ≡ sc.workflow_run_id)).
              ((==_iff s.id i).1 q.0, (q.1, refl)))
            a),
    )

wake_step-HasRun :
    (j : ℕ) (x : Option DailyRun) (sc : Scope) (s : Option AgentStep)
    → Preserves (HasRun j x) (wake_step sc s)
wake_step-HasRun j x sc none = Preserves-pure tt
wake_step-HasRun j x sc (some s) = enqueue_runner_step-Preserves (enqueue-HasRun j x) _

module _ {A : Type 0} (p : A → Bool) (x : A) where
  find-change_self :
      (f : A → A)
      → ((y : A) → p (f y) ≡ p y)
      → (xs : List A) → find p xs ≡ some x
      → find p (change p f xs) ≡ some (f x)
  find-change_self f h [] e = ground arith
  find-change_self f h (y ∷ xs) e = ground (arith, h y, find-change_self f h xs)

  any-find : (xs : List A) → find p xs ≡ some x → any p xs ≡ true
  any-find [] e = ground arith
  any-find (y ∷ xs) e = ground (arith, any-find xs)

-- A rate limit's wake-up sets the run to `running` whatever it was: also a run that was cancelled, and
-- one with another pause open.
pub resume_rate_limit-running :
    (sc : Scope) (i : ℕ) (db : Db) (r : DailyRun)
    → find_run sc.run_id db ≡ some r
    → find_run sc.run_id (resume_rate_limit sc i db).1
      ≡ some (record r { status = DailyRunStatus.running })
unfolding resume_rate_limit ◌>>=◌ update_pauses update_run
resume_rate_limit-running sc i db r e =
    let rest : Preserves (HasRun sc.run_id (some (record r { status = DailyRunStatus.running })))
        (emit (event sc run_resumed (some i) nothing) >> (gets (find_step i) >>= wake_step sc)) =
      Preserves-bind _ _ ((enqueue-HasRun _ _).emits _)
        λ _. Preserves-bind _ _ (Preserves-gets _) (wake_step-HasRun _ _ sc) in
    rw (any-find (run_is sc.run_id) r db.runs e)
      (rest.after _ (find-change_self (run_is sc.run_id) r _ (λ x. refl) db.runs e))
