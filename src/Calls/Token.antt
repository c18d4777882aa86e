-- ===== src/Calls/Token.antt =====
-- A minted token verifies for its own call while it lives, and for no other.
use mergecrew.Base.{
  ℕ, ◌+◌, ◌≤◌, Bool, true, false, ◌&&◌, ◌==◌, some, [], ◌∷◌, ◌++◌, All, Text, same_text,
  same_text_refl, same_text_iff, ◌≡◌, ◌≢◌, ◌↔◌, refl, arith, and-eq-true,
}
use mergecrew.Calls.{
  SignedCall, Call, Codec, fields, accepted, split_dot, when, is_fresh, check_payload, body_of,
  mint_call_token, same_bytes, verify_parts, verify_call_token,
}

-- What the native operations promise: base64url is read back and has no dot, and JSON is read back.
pub record IsCodec (codec : Codec) : Type 0 where
  pub decodes : (t : Text) → codec.from_base64url (codec.to_base64url t) ≡ t
  pub dotless : (t : Text) → All (λ c. c ≢ 46) (codec.to_base64url t)
  pub parses :
      (p : SignedCall)
      → codec.parse (codec.stringify p) ≡ fields (some p.step_id) (some p.skill) (some p.issued_at)

split_dot-none : (s : Text) → All (λ c. c ≢ 46) s → split_dot s ≡ s ∷ []
unfolding split_dot
split_dot-none [] h = refl
split_dot-none (c ∷ s) (ne, h) =
    let plain : (c == 46) ≡ false = ground arith in rw (plain, split_dot-none s h) refl

split_dot-two :
    (s t : Text)
    → All (λ c. c ≢ 46) s
    → All (λ c. c ≢ 46) t
    → split_dot (s ++ (46 ∷ t)) ≡ s ∷ t ∷ []
unfolding split_dot
split_dot-two [] t h k = rw (split_dot-none t k) refl
split_dot-two (c ∷ s) t (ne, h) k =
    let plain : (c == 46) ≡ false = ground arith in rw (plain, split_dot-two s t h k) refl

same_bytes_refl : (t : Text) → same_bytes t t ≡ true
same_bytes_refl t = ground (arith, same_text_refl t)

fresh_iff : (ttl issued now : ℕ) → (is_fresh ttl now (some issued) ≡ true) ↔ (now ≤ issued + ttl)
fresh_iff ttl issued now = ground arith

when_iff : (b : Bool) → (when b ≡ accepted) ↔ (b ≡ true)
when_iff true = (λ e. refl, λ e. refl)
when_iff false = (λ e. cc, λ e. cc)

-- The call is the token's, and the token lives.
abbrev pub IsOf : Call → Call → ℕ → ℕ → ℕ → Type 0
IsOf asked minted issued ttl now =
    (minted.step_id ≡ asked.step_id) × (minted.skill ≡ asked.skill) × (now ≤ issued + ttl)

check_payload_iff :
    (asked minted : Call) (issued ttl now : ℕ)
    → (check_payload ttl now asked (fields (some minted.step_id) (some minted.skill) (some issued))
        ≡ accepted)
      ↔ IsOf asked minted issued ttl now
unfolding check_payload
check_payload_iff asked minted issued ttl now =
    let a = same_text minted.step_id asked.step_id in
    let b = same_text minted.skill asked.skill in
    let steps = same_text_iff minted.step_id asked.step_id in
    let skills = same_text_iff minted.skill asked.skill in
    let c = is_fresh ttl now (some issued) in
    (
      λ e.
          let both = and-eq-true (a && b) c ((when_iff ((a && b) && c)).0 e) in
          let texts = and-eq-true a b both.0 in
          (steps.0 texts.0, skills.0 texts.1, (fresh_iff ttl issued now).0 both.1),
      λ h.
          (when_iff ((a && b) && c)).1
            (ground (arith, steps.1 h.0, skills.1 h.1, (fresh_iff ttl issued now).1 h.2)),
    )

-- A token that was minted for a call verifies for a call exactly where it is the same step and skill, and it is not
-- older than its lifetime, whatever its nonce is; so it verifies as often as it is shown while it lives. The condition:
-- base64url is read back and has no dot, and JSON is read back.
pub verify-mint_iff :
    (codec : Codec)
    → IsCodec codec
    → (key nonce : Text) (ttl issued now : ℕ) (minted asked : Call)
    → (verify_call_token codec key ttl now (mint_call_token codec key issued nonce minted) asked
        ≡ accepted)
      ↔ IsOf asked minted issued ttl now
unfolding verify_call_token mint_call_token verify_parts body_of
verify-mint_iff codec laws key nonce ttl issued now minted asked =
    let p : SignedCall = record {
      step_id = minted.step_id;
      skill = minted.skill;
      nonce = nonce;
      issued_at = issued;
    } in
    let body = codec.to_base64url (codec.stringify p) in
    let sig = codec.digest key body in
    let halves =
      split_dot-two body (codec.to_base64url sig) (laws.dotless (codec.stringify p))
        (laws.dotless sig) in
    rw
      (
        halves,
        laws.decodes sig,
        same_bytes_refl sig,
        laws.decodes (codec.stringify p),
        laws.parses p,
      )
      (check_payload_iff asked minted issued ttl now)
