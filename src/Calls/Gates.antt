-- ===== src/Calls/Gates.antt =====
-- Which calls the executor lets through under a policy.
use mergecrew.Base.{
  ℕ, Bool, true, Option, none, some, [], ◌∷◌, Text, ◌≡◌, refl, Bool-cases, inl, inr,
}
use mergecrew.Calls.{
  Codec, Verdict, accepted, refused, raised, verify_call_token, Policy, SkillContext, dispatched,
  is_allowed, by_verdict, includes, high_impact_skills, check_token, check_policy, execute,
}

module _ (codec : Codec) (policy : Policy) (now : ℕ) (name : Text) where
  -- The call carries a token that verifies for its step and this skill.
  abbrev pub IsSigned : Option Text → Option Text → Type 0
  IsSigned token step_id =
      (t : Text) × (i : Text) × (token ≡ some t)
      × (step_id ≡ some i)
      × (verify_call_token codec policy.key policy.token_ttl_ms now t
            (record { step_id = i; skill = name })
          ≡ accepted)

  dispatched-accepted : (v : Verdict) → by_verdict v ≡ dispatched → v ≡ accepted
  dispatched-accepted accepted e = refl
  dispatched-accepted refused e = cc
  dispatched-accepted raised e = cc

  check_token-IsSigned :
      (token step_id : Option Text)
      → check_token codec policy now name token step_id ≡ dispatched
      → IsSigned token step_id
  unfolding check_token
  check_token-IsSigned none o e = cc
  check_token-IsSigned (some []) o e = cc
  check_token-IsSigned (some (c ∷ t)) none e = cc
  check_token-IsSigned (some (c ∷ t)) (some []) e = cc
  check_token-IsSigned (some (c ∷ t)) (some (d ∷ i)) e =
      (c ∷ t, d ∷ i, refl, refl, dispatched-accepted _ e)

  check_policy-gated :
      (ctx : SkillContext)
      → check_policy codec (some policy) now name ctx ≡ dispatched
      → (is_allowed name ctx.allowed_skills ≡ true)
        × (includes name high_impact_skills ≡ true → IsSigned ctx.call_token ctx.agent_step_id)
  unfolding check_policy
  check_policy-gated ctx e = elim (Bool-cases (is_allowed name ctx.allowed_skills)) [
    | inr n ↦ cc (rw n at e)
    | inl y ↦ (y, λ h. check_token-IsSigned ctx.call_token ctx.agent_step_id (rw (y, h) at e))
  ]

-- Under a policy the executor runs a skill only if it is registered and on the list of allowed skills, where there is a
-- list; and a high-impact skill only if the call carries a token that verifies for its own step and this skill.
pub execute-gated :
    (codec : Codec) (policy : Policy) (now : ℕ) (name : Text) (registered : Text → Bool)
    (ctx : SkillContext)
    → execute codec registered (some policy) now name ctx ≡ dispatched
    → (registered name ≡ true)
      × (is_allowed name ctx.allowed_skills ≡ true)
      × (includes name high_impact_skills ≡ true
          → IsSigned codec policy now name ctx.call_token ctx.agent_step_id)
unfolding execute
execute-gated codec policy now name registered ctx e = elim (Bool-cases (registered name)) [
  | inr n ↦ cc (rw n at e)
  | inl y ↦
      let (listed, signed) = check_policy-gated codec policy now name ctx (rw y at e) in
      (y, listed, signed)
]
