-- ===== src/Egress/Skill.antt =====
-- packages/skills/src/egress-policy.ts. The parser of URLs is a parameter, which gives the host's name; an audit event
-- is written to a state by a handler that may also throw.
use mergecrew.Base.{
  Bool, true, false, not, if◌then◌else◌, Option, none, some, List, [], ◌∷◌, Text, lower,
}
use mergecrew.Egress.{is_private, pattern_fits}

-- The loop over the allowlist.
unfoldable pub listed : Text → List Text → Bool
listed host [] = false
listed host (pattern ∷ rest) = if pattern_fits pattern host then true else listed host rest

unfoldable pub is_host_allowed : Text → Option (List Text) → Bool
is_host_allowed host none = true
is_host_allowed host (some []) = if is_private host then false else false
is_host_allowed host (some (p ∷ ps)) = if is_private host then false else listed host (p ∷ ps)

-- `EgressBlocked`: the host that is not in the list, or a URL that does not parse.
pub data EgressBlocked : Type 0 where
  unlisted_host unparsed : Text → EgressBlocked

-- What the caller gets: `none` is the normal return.
abbrev pub Thrown : Type 0
Thrown = Option EgressBlocked

pub data Decision : Type 0 where
  allowed blocked : Decision

pub data Reason : Type 0 where
  parse_error private unlisted unrestricted allowlist : Reason

pub record EgressEvent : Type 0 where
  pub origin : Text
  pub host : Text
  pub decision : Decision
  pub reason : Reason

-- `emit` gives the state that it leaves, and whether it threw.
pub record EgressRecordCtx {ℓ} (W : Type ℓ) : Type ℓ where
  pub egress_allowlist : Option (List Text)
  pub emit : Option (EgressEvent → W → W × Bool)

unfoldable pub safe_emit {ℓ} : {W : Type ℓ} → EgressRecordCtx W → EgressEvent → W → W
safe_emit ctx event w = elim (ctx.emit) [ none ↦ w | some emit ↦ (emit event w).0 ]

unfoldable pub block_reason : Text → Reason
block_reason host = if is_private host then private else unlisted

unfoldable pub allow_reason : Option (List Text) → Reason
allow_reason none = unrestricted
allow_reason (some patterns) = allowlist

-- The check once the URL has been parsed.
unfoldable pub assert_parsed : Option Text → Text → Option (List Text) → Thrown
assert_parsed none url patterns = some (unparsed url)
assert_parsed (some name) url patterns =
    let host = lower name in
    if is_host_allowed host patterns then none else some (unlisted_host host)

-- What the recording check throws, and the event that it emits.
unfoldable pub record_parsed : Option Text → Text → Option (List Text) → Text → Thrown × EgressEvent
record_parsed none url patterns origin = (
  some (unparsed url),
  record { origin = origin; host = url; decision = blocked; reason = parse_error },
)
record_parsed (some name) url patterns origin =
    let host = lower name in
    if not (is_host_allowed host patterns)
    then (
      some (unlisted_host host),
      record { origin = origin; host = host; decision = blocked; reason = block_reason host },
    )
    else (
      none,
      record { origin = origin; host = host; decision = allowed; reason = allow_reason patterns },
    )

module _ (hostname : Text → Option Text) where
  unfoldable pub assert_egress_allowed : Text → Option (List Text) → Thrown
  assert_egress_allowed url patterns = assert_parsed (hostname url) url patterns

  -- Every path emits once, last before the return or the throw.
  unfoldable pub record_and_assert_egress {ℓ} :
      {W : Type ℓ} → Text → EgressRecordCtx W → Text → W → Thrown × W
  record_and_assert_egress url ctx origin w =
      let (thrown, event) = record_parsed (hostname url) url (ctx.egress_allowlist) origin in
      (thrown, safe_emit ctx event w)
