-- ===== src/Orchestrator/Flow/Round.antt =====
-- The fan-in of apps/orchestrator/src/orchestrator.ts (`dispatchGraphNext`) in a round of a node, said of the node's steps.
use mergecrew.Base.{
  ℕ, ◌+◌, ◌<◌, ◌≤◌, String, Option, none, some, List, [], ◌∷◌, Bool, true, false, not, ◌&&◌, ◌≡◌,
  ◌≢◌, ◌↔◌, refl, arith, Any, Any-map, Any-keep, keep-Any, any, any_sound, count-pos, count-none,
  count_of, keep, length, opt_is, opt_is_iff, ==_iff, Bool-cases, inl, inr, ◌==◌, and-eq-true, ltb,
  ltb→lt,
}
use mergecrew.Exec.{ok}
use mergecrew.Graph.{GraphNode, FanInPolicy, strict, lenient, get_node_agents}
use mergecrew.Orchestrator.Store.{Db, AgentStep, StepStatus, is_terminal, is_failed}
use mergecrew.Orchestrator.Dispatch.{Scope}
use mergecrew.Orchestrator.Flow.{
  waiting, stage_fails, advance, fan_in, on_node, terminal_on, failed_on, is_strict,
}
use mergecrew.Orchestrator.Flow.Stages.{fan_in-settle, settle-waiting, settle-advance, settle-fails}

-- The statuses of a step that is over, and of one that went wrong.
pub data HasEnded : StepStatus → Type 0 where
  ended_done : HasEnded StepStatus.done
  ended_failed : HasEnded StepStatus.failed
  ended_cancelled : HasEnded StepStatus.cancelled

pub data HasFailed : StepStatus → Type 0 where
  went_failed : HasFailed StepStatus.failed
  went_cancelled : HasFailed StepStatus.cancelled

abbrev pub IsOn : ℕ → String → AgentStep → Type 0
IsOn w key s = (s.workflow_run_id ≡ w) × (s.graph_node_key ≡ some key)

-- Some step of the node is not over; some step of it went wrong.
abbrev pub IsUnderWay : ℕ → String → Db → Type 0
IsUnderWay w key db = Any (λ s. IsOn w key s × (¬ HasEnded s.status)) db.steps

abbrev pub IsFaulty : ℕ → String → Db → Type 0
IsFaulty w key db = Any (λ s. IsOn w key s × HasFailed s.status) db.steps

ended_iff : (s : StepStatus) → (is_terminal s ≡ false) ↔ (¬ HasEnded s)
ended_iff StepStatus.pending = (λ e h. elim h [ ], λ h. refl)
ended_iff StepStatus.running = (λ e h. elim h [ ], λ h. refl)
ended_iff StepStatus.rate_limited = (λ e h. elim h [ ], λ h. refl)
ended_iff StepStatus.paused_gate = (λ e h. elim h [ ], λ h. refl)
ended_iff StepStatus.done = (λ e. cc, λ h. absurd (h ended_done))
ended_iff StepStatus.failed = (λ e. cc, λ h. absurd (h ended_failed))
ended_iff StepStatus.cancelled = (λ e. cc, λ h. absurd (h ended_cancelled))

failed_iff : (s : StepStatus) → (is_failed s ≡ true) ↔ HasFailed s
failed_iff StepStatus.pending = (λ e. cc, λ h. elim h [ ])
failed_iff StepStatus.running = (λ e. cc, λ h. elim h [ ])
failed_iff StepStatus.rate_limited = (λ e. cc, λ h. elim h [ ])
failed_iff StepStatus.paused_gate = (λ e. cc, λ h. elim h [ ])
failed_iff StepStatus.done = (λ e. cc, λ h. elim h [ ])
failed_iff StepStatus.failed = (λ e. went_failed, λ h. refl)
failed_iff StepStatus.cancelled = (λ e. went_cancelled, λ h. refl)

strict_iff : (p : Option FanInPolicy) → (is_strict p ≡ true) ↔ (p ≢ some lenient)
strict_iff none = (λ e f. cc, λ h. refl)
strict_iff (some strict) = (λ e f. cc, λ h. refl)
strict_iff (some lenient) = (λ e. cc, λ h. absurd (h refl))

IsOn-iff : (w : ℕ) (key : String) (s : AgentStep) → (on_node w key s ≡ true) ↔ IsOn w key s
IsOn-iff w key s = (
  λ e.
      let both = and-eq-true (s.workflow_run_id == w) (opt_is key s.graph_node_key) e in
      ((==_iff s.workflow_run_id w).0 both.0, (opt_is_iff key s.graph_node_key).0 both.1),
  λ h. ground (arith, (==_iff s.workflow_run_id w).1 h.0, (opt_is_iff key s.graph_node_key).1 h.1),
)

module _ {A : Type 0} (p q : A → Bool) where
  -- The rows that meet a test, by another test.
  count_of-keep :
      (xs : List A) → count_of q (keep p xs) + count_of (λ x. p x && not (q x)) xs ≡ count_of p xs
  count_of-keep [] = omega arith
  count_of-keep (x ∷ xs) = ground (arith, count_of-keep xs)

  pos-count : (xs : List A) → 0 < count_of p xs → Any (λ x. p x ≡ true) xs
  pos-count xs h = elim (Bool-cases (any p xs)) [
    | inl e ↦ any_sound p xs e
    | inr e ↦ absurd (omega (arith, h, count-none p xs e))
  ]

abbrev open_on : ℕ → String → AgentStep → Bool
open_on w key s = on_node w key s && not (is_terminal s.status)

open_on_iff :
    (w : ℕ) (key : String) (s : AgentStep)
    → (open_on w key s ≡ true) ↔ (IsOn w key s × (¬ HasEnded s.status))
open_on_iff w key s = (
  λ e.
      let both = and-eq-true (on_node w key s) (not (is_terminal s.status)) e in
      ((IsOn-iff w key s).0 both.0, (ended_iff s.status).0 (ground (arith, both.1))),
  λ h. ground (arith, (IsOn-iff w key s).1 h.0, (ended_iff s.status).1 h.1),
)

module _ (w : ℕ) (key : String) (db : Db) where
  IsUnderWay-iff :
      (n : ℕ)
      → count_of (on_node w key) db.steps ≡ n
      → (terminal_on w key db < n) ↔ IsUnderWay w key db
  IsUnderWay-iff n e =
      let total = count_of-keep (on_node w key) (λ s. is_terminal s.status) db.steps in
      (
        λ h.
            Any-map (λ s. (open_on_iff w key s).0)
              (pos-count (open_on w key) (open_on w key) db.steps (omega (arith, h, e, total))),
        λ a.
            let some_open = count-pos (open_on w key) (Any-map (λ s. (open_on_iff w key s).1) a) in
            omega (arith, e, total, some_open),
      )

  IsFaulty-iff : (0 < failed_on w key db) ↔ IsFaulty w key db
  IsFaulty-iff = (
    λ h.
        Any-map
          (λ s (q : (is_failed s.status ≡ true) × (on_node w key s ≡ true)).
            ((IsOn-iff w key s).0 q.1, (failed_iff s.status).0 q.0))
          (keep-Any (on_node w key) db.steps (
            pos-count (λ s. is_failed s.status) (on_node w key) (keep (on_node w key) db.steps) h)),
    λ a.
        count-pos (λ s. is_failed s.status)
          (Any-keep (on_node w key) db.steps (
            Any-map
              (λ s (q : IsOn w key s × HasFailed s.status).
                ((failed_iff s.status).1 q.1, (IsOn-iff w key s).1 q.0))
              a)),
  )

not_less : {C : Type 0} (t n : ℕ) → (t < n → C) → ¬ C → n ≤ t
not_less t n f h = elim (Bool-cases (ltb t n)) [
  | inl e ↦ absurd (h (f (ltb→lt t n e)))
  | inr e ↦ ground (arith, e)
]

none_left : (f : ℕ) → ¬ (0 < f) → f ≡ 0
none_left f h = elim (Bool-cases (f == 0)) [
  | inl e ↦ (==_iff f 0).0 e
  | inr e ↦ absurd (h (ground (arith, e)))
]

-- In a round in which a node of several agents has as many steps as agents, the fan-in waits exactly while a step of it is
-- not done, failed or cancelled; then it fails the stage exactly if the node is not lenient and a step of it failed or was
-- cancelled, and else it advances.
pub fan_in-round_iff :
    (sc : Scope) (key : String) (n : GraphNode) (db : Db)
    → 1 < length (get_node_agents n)
    → count_of (on_node sc.workflow_run_id key) db.steps ≡ length (get_node_agents n)
    → (((fan_in sc key n db).0 ≡ ok waiting) ↔ IsUnderWay sc.workflow_run_id key db)
      × (((fan_in sc key n db).0 ≡ ok stage_fails) ↔ (
          (¬ IsUnderWay sc.workflow_run_id key db)
          × (n.policy ≢ some lenient)
          × IsFaulty sc.workflow_run_id key db))
      × (((fan_in sc key n db).0 ≡ ok advance) ↔ (
          (¬ IsUnderWay sc.workflow_run_id key db)
          × (¬ ((n.policy ≢ some lenient) × IsFaulty sc.workflow_run_id key db))))
fan_in-round_iff sc key n db many whole =
    let t = terminal_on sc.workflow_run_id key db in
    let f = failed_on sc.workflow_run_id key db in
    let agents = length (get_node_agents n) in
    let open_steps = IsUnderWay-iff sc.workflow_run_id key db agents whole in
    let faulty = IsFaulty-iff sc.workflow_run_id key db in
    let lax = strict_iff n.policy in
    let over : (agents ≤ t) ↔ (¬ IsUnderWay sc.workflow_run_id key db) =
      (λ h a. omega (arith, h, open_steps.1 a), not_less t agents (λ h. open_steps.0 h)) in
    let waits = settle-waiting sc key n t f db in
    let fails = settle-fails sc key n t f db in
    let advances = settle-advance sc key n t f db in
    rw (fan_in-settle sc key n db many) (
      (λ e. open_steps.0 (waits.0 e), λ a. waits.1 (open_steps.1 a)),
      (
        λ e. let (a, b, c) = fails.0 e in (over.0 a, lax.0 b, faulty.0 c),
        λ (a, b, c). fails.1 (over.1 a, lax.1 b, faulty.1 c),
      ),
      (
        λ e.
            let (a, b) = advances.0 e in
            (over.0 a, λ q. omega (arith, b (lax.1 q.0), faulty.1 q.1)),
        λ (a, b). advances.1 (over.1 a, λ q. none_left f (λ h. b (lax.0 q, faulty.0 h))),
      ),
    )
