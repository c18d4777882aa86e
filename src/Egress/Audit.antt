-- ===== src/Egress/Audit.antt =====
-- The audit of egress never changes the decision.
use mergecrew.Base.{List, ◌≡◌, refl, Option, none, some, Text, lower, Bool-cases, inl, inr}
use mergecrew.Egress.Skill.{
  Thrown, Decision, allowed, blocked, EgressEvent, EgressRecordCtx, safe_emit, is_host_allowed,
  assert_egress_allowed, record_and_assert_egress, assert_parsed, record_parsed,
}

abbrev pub verdict : Thrown → Decision
verdict none = allowed
verdict (some b) = blocked

-- What an event says of a decision.
abbrev pub Reports : Text → Thrown → EgressEvent → Type 0
Reports origin thrown event = (event.decision ≡ verdict thrown) × (event.origin ≡ origin)

record_parsed-verdict :
    (name : Option Text) (url : Text) (patterns : Option (List Text)) (origin : Text)
    → ((record_parsed name url patterns origin).0 ≡ assert_parsed name url patterns)
      × Reports origin
          (assert_parsed name url patterns)
          ((record_parsed name url patterns origin).1)
unfolding record_parsed assert_parsed
record_parsed-verdict none url patterns origin = (refl, (refl, refl))
record_parsed-verdict (some name) url patterns origin =
    elim (Bool-cases (is_host_allowed (lower name) patterns)) [
      | inl q ↦ rw q (refl, (refl, refl))
      | inr q ↦ rw q (refl, (refl, refl))
    ]

module _ (hostname : Text → Option Text) where
  -- Whatever the event handler does, and whether it is there, the recording check throws what the plain check throws,
  -- and all that it does to the state is to emit one event, which has that decision and the caller's origin.
  pub record_and_assert-faithful {ℓ} :
      {W : Type ℓ} (url origin : Text) (ctx : EgressRecordCtx W) (w : W)
      → let thrown = assert_egress_allowed hostname url (ctx.egress_allowlist) in
        ((record_and_assert_egress hostname url ctx origin w).0 ≡ thrown)
        × ((event : EgressEvent) × ((record_and_assert_egress hostname url ctx origin w).1
              ≡ safe_emit ctx event w)
            × Reports origin thrown event)
  unfolding record_and_assert_egress assert_egress_allowed
  record_and_assert-faithful url origin ctx w =
      let patterns = ctx.egress_allowlist in
      let (same, told) = record_parsed-verdict (hostname url) url patterns origin in
      (same, ((record_parsed (hostname url) url patterns origin).1, refl, told))
