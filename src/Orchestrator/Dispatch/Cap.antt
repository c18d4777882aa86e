-- ===== src/Orchestrator/Dispatch/Cap.antt =====
-- The cap on the steps that an organization has in flight.
use mergecrew.Base.{
  ℕ, ◌≤◌, ◌<◌, String, Option, none, some, List, [], ◌∷◌, false, ◌≡◌, subst, inl, inr, arith,
  Bool-cases, count_of, count_of-append, any,
}
use mergecrew.Exec.{◌>>=◌}
use mergecrew.Exec.Preserves.{
  Preserves, Preserves-bind, Preserves-if, Preserves-pure, Preserves-gets,
}
use mergecrew.Orchestrator.Store.{
  Db, AgentStep, AgentDefinition, MergecrewConfig, change, step_is, update_step, emit, add_job,
  create_step, find_organization,
}
use mergecrew.Orchestrator.Dispatch.{
  Scope, cap_of, at_cap, inflight, inflight_in, new_step, create_and_enqueue, dispatch_capped,
  dispatch_resolved, dispatch_agent_step,
}
use mergecrew.Orchestrator.Dispatch.Keeping.{
  Settles, EnqueueRules, enqueue_runner_step-Preserves, defer-Preserves,
}

-- The organization has a cap, and no more steps in flight than that.
pub record IsWithinCap (org cap : ℕ) (db : Db) : Type 0 where
  pub capped : cap_of (find_organization org db) ≡ cap
  pub positive : 0 < cap
  pub within : inflight org db ≤ cap

module _ (org cap : ℕ) where
  emit-IsWithinCap : (e : _) → Preserves (IsWithinCap org cap) (emit e)
  unfolding emit
  emit-IsWithinCap e = record {
    after = λ db h. record { capped = h.capped; positive = h.positive; within = h.within };
  }

  add_job-IsWithinCap : (j : _) → Preserves (IsWithinCap org cap) (add_job j)
  unfolding add_job
  add_job-IsWithinCap j = record {
    after = λ db h. record { capped = h.capped; positive = h.positive; within = h.within };
  }

  pub settled_not_inflight : (s t : AgentStep) → Settles s t → inflight_in org t ≡ false
  settled_not_inflight s t h = ground arith

  count-change :
      (i : ℕ) (f : AgentStep → AgentStep)
      → ((s : AgentStep) → Settles s (f s))
      → (xs : List AgentStep)
      → count_of (inflight_in org) (change (step_is i) f xs) ≤ count_of (inflight_in org) xs
  count-change i f h [] = omega arith
  count-change i f h (x ∷ xs) =
      ground (arith, settled_not_inflight x (f x) (h x), count-change i f h xs)

  update_step-IsWithinCap :
      (i : ℕ) (f : AgentStep → AgentStep)
      → ((s : AgentStep) → Settles s (f s))
      → Preserves (IsWithinCap org cap) (update_step i f)
  unfolding update_step
  update_step-IsWithinCap i f h = record {
    after = λ db v. elim (Bool-cases (any (step_is i) db.steps)) [
      | inl q ↦ rw q (record {
        capped = v.capped;
        positive = v.positive;
        within = omega (arith, v.within, count-change i f h db.steps);
      })
      | inr q ↦ rw q v
    ];
  }

  pub enqueue-IsWithinCap : EnqueueRules (IsWithinCap org cap)
  enqueue-IsWithinCap = record {
    emits = emit-IsWithinCap;
    queues = add_job-IsWithinCap;
    settles = update_step-IsWithinCap;
  }

  create-IsWithinCap :
      (sc : Scope) (r : String) (d : AgentDefinition) (key : Option String) (db : Db)
      → (sc.organization_id ≡ org → inflight org db < cap)
      → IsWithinCap org cap db
      → IsWithinCap org cap (create_step (new_step sc r d key) db).1
  unfolding create_step
  create-IsWithinCap sc r d key db room v = record {
    capped = v.capped;
    positive = v.positive;
    within = ground (
      arith,
      v.within,
      count_of-append (inflight_in org) db.steps (new_step sc r d key db.next_id ∷ []),
    );
  }

  create_and_enqueue-IsWithinCap :
      (sc : Scope) (r : String) (d : AgentDefinition) (key : Option String) (db : Db)
      → (sc.organization_id ≡ org → inflight org db < cap)
      → IsWithinCap org cap db
      → IsWithinCap org cap (create_and_enqueue sc r d key db).1
  unfolding create_and_enqueue ◌>>=◌ create_step
  create_and_enqueue-IsWithinCap sc r d key db room v =
      (enqueue_runner_step-Preserves enqueue-IsWithinCap _).after _
        (create-IsWithinCap sc r d key db room v)

  has_room : (c n : ℕ) → at_cap c n ≡ false → c ≡ cap → 0 < cap → n < cap
  has_room c n q e p = ground arith

  dispatch_capped-IsWithinCap :
      (sc : Scope) (r : String) (d : AgentDefinition) (key : Option String)
      → Preserves (IsWithinCap org cap) (dispatch_capped sc r d key)
  unfolding dispatch_capped ◌>>=◌
  dispatch_capped-IsWithinCap sc r d key = record {
    after = λ db v.
        elim (Bool-cases (
          at_cap (cap_of (find_organization sc.organization_id db))
            (inflight sc.organization_id db))) [
              | inl q ↦ rw q ((defer-Preserves enqueue-IsWithinCap sc r).after db v)
              | inr q ↦ rw q (
                  create_and_enqueue-IsWithinCap sc r d key db
                    (λ same.
                      has_room _ _
                        (subst
                          (λ o. at_cap (cap_of (find_organization o db)) (inflight o db) ≡ false)
                          same q)
                        v.capped v.positive)
                    v)
            ];
  }

  dispatch_resolved-IsWithinCap :
      (sc : Scope) (r : String) (d : Option AgentDefinition) (key : Option String)
      → Preserves (IsWithinCap org cap) (dispatch_resolved sc r d key)
  unfolding dispatch_resolved
  dispatch_resolved-IsWithinCap sc r none key = Preserves-pure tt
  dispatch_resolved-IsWithinCap sc r (some d) key =
      Preserves-bind _ _ (Preserves-gets _)
        λ run. Preserves-if _ _ _ (Preserves-pure tt) (dispatch_capped-IsWithinCap sc r d key)

  pub dispatch_agent_step-IsWithinCap :
      (sc : Scope) (r : String) (cfg : MergecrewConfig) (key : Option String)
      → Preserves (IsWithinCap org cap) (dispatch_agent_step sc r cfg key)
  unfolding dispatch_agent_step
  dispatch_agent_step-IsWithinCap sc r cfg key = dispatch_resolved-IsWithinCap sc r _ key
