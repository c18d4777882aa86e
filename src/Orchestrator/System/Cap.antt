-- ===== src/Orchestrator/System/Cap.antt =====
-- The cap of an organization, whatever happens in whatever order. The resolution of a gate is left out: an approval
-- puts a paused step back to `pending` without asking for the cap.
use mergecrew.Base.{ℕ, String, Option, none, some, refl, arith, Bool-cases, any, inl, inr, ◌&&◌}
use mergecrew.Exec.Preserves.{Preserves, Preserves-bind, Preserves-pure, Preserves-gets}
use mergecrew.Graph.{GraphDefinition}
use mergecrew.Orchestrator.Store.{
  Db, AgentStep, RunPause, update_step, update_pauses, create_run, step_is,
}
use mergecrew.Orchestrator.Store.Rows.{count_of-change, count_of-change-le}
use mergecrew.Orchestrator.Dispatch.{Scope, inflight_in, handle_org_cap_wait}
use mergecrew.Orchestrator.Dispatch.Keeping.{Settles, enqueue_runner_step-Preserves}
use mergecrew.Orchestrator.Dispatch.Cap.{
  IsWithinCap, enqueue-IsWithinCap, dispatch_agent_step-IsWithinCap, settled_not_inflight,
}
use mergecrew.Orchestrator.Replies.{resume_rate_limit, wake_step}
use mergecrew.Orchestrator.Replies.Cap.{
  on_step_reply-IsWithinCap, reply-IsWithinCap, update_run-IsWithinCap,
}
use mergecrew.Orchestrator.RunStart.{store_lifecycle}
use mergecrew.Orchestrator.RunStart.Keeping.{DueRules, due_parts, handle_run_due-Preserves}
use mergecrew.Orchestrator.Sweeper.{update_running_step, is_running}
use mergecrew.Orchestrator.Watchdog.Keeping.{stuck_run_watchdog-Preserves}
use mergecrew.Orchestrator.Sweeper.Keeping.{SweepRules, tick-Preserves}
use mergecrew.Orchestrator.System.{
  Message, run_due, org_cap_over, step_reply, rate_limit_over, gate_resolved, sweep, watchdog,
  clock, set_clock, handle, Reachable, Reachable_induction,
}

-- The message resolves no gate.
abbrev pub IsUngated : Message → Type 0
IsUngated (gate_resolved a res) = ⊥
IsUngated _ = Unit

module _ (org cap : ℕ) where
  open enqueue-IsWithinCap org cap use {emits}

  due-IsWithinCap : DueRules (IsWithinCap org cap)
  unfolding create_run store_lifecycle
  due-IsWithinCap = record {
    starts = λ r. (reply-IsWithinCap org cap r).starts;
    writes = λ i f h. update_run-IsWithinCap org cap i f;
    creates = λ row h. record {
      after = λ db v. record { capped = v.capped; positive = v.positive; within = v.within };
    };
    stores = λ sync. record {
      after = λ db v. record { capped = v.capped; positive = v.positive; within = v.within };
    };
  }

  beat-IsWithinCap :
      (i now : ℕ)
      → Preserves (IsWithinCap org cap) (update_step i (λ s. record s { heartbeat_at = some now }))
  unfolding update_step
  beat-IsWithinCap i now = record {
    after = λ db v. elim (Bool-cases (any (step_is i) db.steps)) [
      | inl q ↦ rw q (record {
        capped = v.capped;
        positive = v.positive;
        within = omega (
          arith,
          v.within,
          count_of-change (inflight_in org) (step_is i) (λ s. record s { heartbeat_at = some now })
              db.steps (λ s e. refl),
        );
      })
      | inr q ↦ rw q v
    ];
  }

  gives_up-IsWithinCap :
      (i : ℕ) (f : AgentStep → AgentStep)
      → ((s : AgentStep) → Settles s (f s))
      → Preserves (IsWithinCap org cap) (update_running_step i f)
  unfolding update_running_step
  gives_up-IsWithinCap i f h = record {
    after = λ db v. record {
      capped = v.capped;
      positive = v.positive;
      within = omega (
        arith,
        v.within,
        count_of-change-le (inflight_in org) (λ s. step_is i s && is_running s.status) f db.steps
            (λ s e. settled_not_inflight org cap s (f s) (h s)),
      );
    };
  }

  sweep-IsWithinCap : SweepRules (IsWithinCap org cap)
  sweep-IsWithinCap = record {
    enqueue = enqueue-IsWithinCap org cap;
    beats = beat-IsWithinCap;
    gives_up = gives_up-IsWithinCap;
  }

  wake_step-IsWithinCap :
      (sc : Scope) (s : Option AgentStep) → Preserves (IsWithinCap org cap) (wake_step sc s)
  wake_step-IsWithinCap sc none = Preserves-pure tt
  wake_step-IsWithinCap sc (some s) = enqueue_runner_step-Preserves (enqueue-IsWithinCap org cap) _

  pauses-IsWithinCap :
      (p : RunPause → _) (f : RunPause → RunPause)
      → Preserves (IsWithinCap org cap) (update_pauses p f)
  unfolding update_pauses
  pauses-IsWithinCap p f = record {
    after = λ db v. record { capped = v.capped; positive = v.positive; within = v.within };
  }

  resume_rate_limit-IsWithinCap :
      (sc : Scope) (i : ℕ) → Preserves (IsWithinCap org cap) (resume_rate_limit sc i)
  unfolding resume_rate_limit
  resume_rate_limit-IsWithinCap sc i = Preserves-bind _ _ (Preserves-gets _) λ now.
      Preserves-bind _ _ (pauses-IsWithinCap _ _) λ _.
        Preserves-bind _ _ (update_run-IsWithinCap org cap sc.run_id _) λ _.
          Preserves-bind _ _ (emits _)
            λ _. Preserves-bind _ _ (Preserves-gets _) λ s. wake_step-IsWithinCap sc s

  module _ (parse_yaml : String → Option GraphDefinition) where
    handle-IsWithinCap :
        (m : Message) → IsUngated m → Preserves (IsWithinCap org cap) (handle parse_yaml m)
    unfolding handle handle_org_cap_wait set_clock
    handle-IsWithinCap (run_due sync due) is =
        handle_run_due-Preserves (due_parts due-IsWithinCap) parse_yaml due sync
    handle-IsWithinCap (org_cap_over w) is =
        Preserves-bind _ _ (Preserves-gets _) λ lc. dispatch_agent_step-IsWithinCap org cap _ _ _ _
    handle-IsWithinCap (step_reply sc i outcome) is = record {
      after = λ db v. on_step_reply-IsWithinCap parse_yaml org cap sc i outcome db v;
    }
    handle-IsWithinCap (rate_limit_over sc i) is = resume_rate_limit-IsWithinCap sc i
    handle-IsWithinCap (gate_resolved a res) is = elim is [ ]
    handle-IsWithinCap (sweep cfg) is = tick-Preserves sweep-IsWithinCap cfg
    handle-IsWithinCap (watchdog cfg) is =
        stuck_run_watchdog-Preserves (λ i f h. update_run-IsWithinCap org cap i f) emits cfg
    handle-IsWithinCap (clock t) is = record {
      after = λ db v. record { capped = v.capped; positive = v.positive; within = v.within };
    }

-- From a state in which an organization that has a cap is within it, it stays within it after any run starts,
-- deferred dispatches, replies, ends of rate limits, sweeps and runs of the watchdog, but no resolved gate, in
-- any order and at any times, each handled to its end before the next: no more of its steps are pending or
-- running than its cap.
pub Reachable-IsWithinCap :
    (parse_yaml : String → Option GraphDefinition) (org limit : ℕ) (start db : Db)
    → IsWithinCap org limit start
    → Reachable parse_yaml IsUngated start db
    → IsWithinCap org limit db
Reachable-IsWithinCap parse_yaml org limit start db v r =
    Reachable_induction parse_yaml (handle-IsWithinCap org limit parse_yaml) v r
