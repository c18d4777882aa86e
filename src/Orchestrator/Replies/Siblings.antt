-- ===== src/Orchestrator/Replies/Siblings.antt =====
-- Approved gates of apps/orchestrator/src/orchestrator.ts (`resumeGate`) where a run has several open pauses.
use mergecrew.Base.{
  ℕ, ◌<◌, String, Option, none, some, List, true, false, ◌≡◌, ◌≢◌, refl, ap, ◌∙◌, arith, any, find,
  ◌==◌, ==_iff, Any, here, there, Any-map, count-pos, inl, inr, Bool-cases,
}
use mergecrew.Exec.{gets, ◌>>=◌, ◌>>◌}
use mergecrew.Exec.Preserves.{Preserves, Preserves-bind}
use mergecrew.Graph.{GraphDefinition}
use mergecrew.Orchestrator.Store.{
  Db, AgentStep, RunPause, ApprovalRequest, update_step, update_pauses, emit, add_job, change,
  find_run, step_is, run_resumed, reason,
}
use mergecrew.Orchestrator.Dispatch.{Scope}
use mergecrew.Orchestrator.Dispatch.Keeping.{EnqueueRules}
use mergecrew.Orchestrator.Replies.{
  approve, event, still_paused, open_in, open_pause_of, resume_run, requeue_step, settle_gate,
  approval_scope, resume_gate,
}
use mergecrew.Orchestrator.Replies.Isolation.{enqueue-HasRun, update_step-HasRun}
use mergecrew.Orchestrator.Replies.Resuming.{requeue_step-Preserves}

-- Another pause of the run that is open.
pub record IsSibling (p q : RunPause) : Type 0 where
  pub other : q.id ≢ p.id
  pub of_run : q.daily_run_id ≡ p.daily_run_id
  pub open_still : q.resumed_at ≡ none

abbrev HasPause : RunPause → Db → Type 0
HasPause q db = Any (λ x. x ≡ q) db.pauses

update_step-HasPause :
    (q : RunPause) (i : ℕ) (f : AgentStep → AgentStep) → Preserves (HasPause q) (update_step i f)
unfolding update_step
update_step-HasPause q i f = record {
  after = λ db v. elim (Bool-cases (any (step_is i) db.steps)) [ inl e ↦ rw e v | inr e ↦ rw e v ];
}

enqueue-HasPause : (q : RunPause) → EnqueueRules (HasPause q)
unfolding emit add_job
enqueue-HasPause q = record {
  emits = λ e. record { after = λ db v. v };
  queues = λ j. record { after = λ db v. v };
  settles = λ i f h. update_step-HasPause q i f;
}

-- What follows the look at the other pauses.
approved_rest :
    {P : Db → Type 0}
    → EnqueueRules P
    → ((i : ℕ) (f : AgentStep → AgentStep) → Preserves P (update_step i f))
    → (sc : Scope) (i : Option ℕ)
    → Preserves P (emit (event sc run_resumed i (reason "approve")) >> requeue_step sc i)
approved_rest k steps sc i =
    Preserves-bind _ _ (k.emits _) λ _. requeue_step-Preserves k (λ n. steps n _) sc i

not_zero : (n : ℕ) → 0 < n → (n == 0) ≡ false
not_zero n h = ground arith

settle_gate-keeps :
    (parse_yaml : String → Option GraphDefinition) (sc : Scope) (i : Option ℕ) (q : RunPause)
    (db : Db)
    → 0 < still_paused sc.run_id db
    → HasPause q db
    → (find_run sc.run_id (settle_gate parse_yaml approve sc i db).1 ≡ find_run sc.run_id db)
      × HasPause q (settle_gate parse_yaml approve sc i db).1
unfolding settle_gate resume_run ◌>>=◌
settle_gate-keeps parse_yaml sc i q db h v =
    let run = find_run sc.run_id db in
    rw (not_zero (still_paused sc.run_id db) h) (
      (approved_rest (enqueue-HasRun sc.run_id run) (update_step-HasRun sc.run_id run) sc i).after
          db refl,
      (approved_rest (enqueue-HasPause q) (update_step-HasPause q) sc i).after db v,
    )

change-other :
    (i : ℕ) (f : RunPause → RunPause) (q : RunPause)
    → (q.id == i) ≡ false
    → {xs : List RunPause} → Any (λ x. x ≡ q) xs
    → Any (λ x. x ≡ q) (change (λ y. y.id == i) f xs)
change-other i f q h (here {x} e) =
    let apart : (x.id == i) ≡ false = ap (λ y. y.id == i) e ∙ h in rw apart (here e)
change-other i f q h (there {x} a) = there (change-other i f q h a)

differs : (a b : ℕ) → a ≢ b → (a == b) ≡ false
differs a b h = ground (arith, h)

-- Where the run of an approved gate has another open pause, that pause stays as it is, and so does the run: it is not set
-- to running.
pub resume_gate-keeps_siblings :
    (parse_yaml : String → Option GraphDefinition) (approval_id : ℕ) (ar : ApprovalRequest)
    (p q : RunPause) (db : Db)
    → find (λ a. a.id == approval_id) db.approvals ≡ some ar
    → find (open_pause_of ar.id) db.pauses ≡ some p
    → Any (λ x. x ≡ q) db.pauses
    → IsSibling p q
    → let after = (resume_gate parse_yaml approval_id approve db).1 in
      (find_run p.daily_run_id after ≡ find_run p.daily_run_id db) × Any (λ x. x ≡ q) after.pauses
unfolding resume_gate update_pauses gets ◌>>=◌
resume_gate-keeps_siblings parse_yaml approval_id ar p q db e g a s =
    let closed = record db {
      pauses = change (λ x. x.id == p.id) (λ x. record x { resumed_at = some db.now }) db.pauses;
    } in
    let stays = change-other p.id _ q (differs q.id p.id s.other) a in
    let is_open : (x : RunPause) → x ≡ q → open_in p.daily_run_id x ≡ true = λ x same.
      rw (same, s.of_run, s.open_still, (==_iff p.daily_run_id p.daily_run_id).1 refl) refl in
    rw (e, g)
      (settle_gate-keeps parse_yaml (approval_scope ar p) p.step_id q closed
        (count-pos (open_in p.daily_run_id) (Any-map is_open stays)) stays)
