-- ===== src/Calls.antt =====
-- packages/skills/src/policy-engine.ts, and the gates of `execute` in packages/skills/src/executor.ts. The HMAC, base64url
-- and JSON are parameters. A text is a list of character codes; a time is a number of milliseconds.
pub mod Token
pub mod Gates
mod Tests
use mergecrew.Base.{
  ℕ, ◌+◌, Bool, true, false, not, ◌&&◌, ◌||◌, if◌then◌else◌, ◌==◌, ltb, Option, none, some, List,
  [], ◌∷◌, ◌++◌, length, any, Text, codes, same_text,
}

-- `HIGH_IMPACT_SKILLS`
abbrev pub high_impact_skills : List Text
high_impact_skills =
    codes "repo.git.commit"
    ∷ codes "repo.git.push"
    ∷ codes "deploy.deploy_changeset"
    ∷ codes "deploy.run"
    ∷ codes "deploy.kick_workflow"
    ∷ []

-- `includes`, and `has` of a set.
unfoldable pub includes : Text → List Text → Bool
includes t ts = any (same_text t) ts

pub record SignedCall : Type 0 where
  pub step_id : Text
  pub skill : Text
  pub nonce : Text
  pub issued_at : ℕ

-- What is asked of a token.
pub record Call : Type 0 where
  pub step_id : Text
  pub skill : Text

-- What `JSON.parse` gives: an exception, `null`, or the fields that have the expected type.
pub data Parsed : Type 0 where
  unparsed null : Parsed
  fields : Option Text → Option Text → Option ℕ → Parsed

-- The native operations.
pub record Codec : Type 0 where
  pub digest : Text → Text → Text  -- key, body
  pub to_base64url : Text → Text
  pub from_base64url : Text → Text
  pub stringify : SignedCall → Text
  pub parse : Text → Parsed

-- `raised` is a `TypeError`, at a payload that is `null`.
pub data Verdict : Type 0 where
  accepted refused raised : Verdict

-- The text up to the first dot, and the parts after it.
unfoldable pub split_dot : Text → List Text
split_dot [] = [] ∷ []
split_dot (c ∷ s) =
    let rest = split_dot s in
    if c == 46 then [] ∷ rest else (elim rest [ [] ↦ (c ∷ []) ∷ [] | p ∷ ps ↦ (c ∷ p) ∷ ps ])

abbrev pub opt_is_text : Option Text → Text → Bool
opt_is_text none t = false
opt_is_text (some s) t = same_text s t

-- `Date.now() - issuedAt > ttl`, which is no number where `issuedAt` is none.
abbrev pub is_fresh : ℕ → ℕ → Option ℕ → Bool
is_fresh ttl now none = false
is_fresh ttl now (some issued) = not (ltb (issued + ttl) now)

abbrev pub when : Bool → Verdict
when b = if b then accepted else refused

unfoldable pub check_payload : ℕ → ℕ → Call → Parsed → Verdict
check_payload ttl now call unparsed = refused
check_payload ttl now call null = raised
check_payload ttl now call (fields step_id skill issued_at) =
    when (
      opt_is_text step_id call.step_id
      && opt_is_text skill call.skill
      && is_fresh ttl now issued_at)

-- Equal lengths first, then `timingSafeEqual`.
abbrev pub same_bytes : Text → Text → Bool
same_bytes expected provided = length expected == length provided && same_text expected provided

module _ (codec : Codec) where
  open codec use {digest, to_base64url, from_base64url, stringify, parse}

  unfoldable pub body_of : SignedCall → Text
  body_of payload = to_base64url (stringify payload)

  -- The nonce is random.
  unfoldable pub mint_call_token : Text → ℕ → Text → Call → Text
  mint_call_token key now nonce call =
      let body =
        body_of
          (record { step_id = call.step_id; skill = call.skill; nonce = nonce; issued_at = now }) in
      body ++ (46 ∷ to_base64url (digest key body))

  unfoldable pub verify_parts : Text → ℕ → ℕ → Call → List Text → Verdict
  verify_parts key ttl now call (body ∷ sig ∷ []) =
      if same_bytes (digest key body) (from_base64url sig)
      then check_payload ttl now call (parse (from_base64url body))
      else refused
  verify_parts key ttl now call _ = refused

  unfoldable pub verify_call_token : Text → ℕ → ℕ → Text → Call → Verdict
  verify_call_token key ttl now token call = verify_parts key ttl now call (split_dot token)

-- The engine's key and lifetime of tokens.
pub record Policy : Type 0 where
  pub key : Text
  pub token_ttl_ms : ℕ

pub record SkillContext : Type 0 where
  pub allowed_skills : Option (List Text)
  pub agent_step_id : Option Text
  pub call_token : Option Text

-- What `execute` does before it runs the skill: it throws, or goes on.
pub data Execution : Type 0 where
  unknown_skill not_authorized call_token_missing call_token_invalid type_error : Execution
  dispatched : Execution

-- Without a list of allowed skills every skill is allowed.
unfoldable pub is_allowed : Text → Option (List Text) → Bool
is_allowed name none = true
is_allowed name (some allowed) = includes name allowed

abbrev pub by_verdict : Verdict → Execution
by_verdict accepted = dispatched
by_verdict refused = call_token_invalid
by_verdict raised = type_error

module _ (codec : Codec) where
  -- An empty text counts as missing.
  unfoldable pub check_token : Policy → ℕ → Text → Option Text → Option Text → Execution
  check_token policy now name (some (c ∷ token)) (some (d ∷ step_id)) = by_verdict (
      verify_call_token codec policy.key policy.token_ttl_ms now (c ∷ token)
        (record { step_id = d ∷ step_id; skill = name }))
  check_token policy now name _ _ = call_token_missing

  unfoldable pub check_policy : Option Policy → ℕ → Text → SkillContext → Execution
  check_policy none now name ctx = dispatched
  check_policy (some policy) now name ctx =
      if not (is_allowed name ctx.allowed_skills)
      then not_authorized
      else if includes name high_impact_skills
      then check_token policy now name ctx.call_token ctx.agent_step_id
      else dispatched

  unfoldable pub execute : (Text → Bool) → Option Policy → ℕ → Text → SkillContext → Execution
  execute registered policy now name ctx =
      if not (registered name) then unknown_skill else check_policy policy now name ctx
