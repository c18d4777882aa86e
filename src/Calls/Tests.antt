-- ===== src/Calls/Tests.antt =====
-- Tokens under a codec that is easy to compute: base64url adds a hundred to each code, the digest is the key before the
-- body, and JSON is the lengths before the texts.
use mergecrew.Base.{
  ◌+◌, ◌-◌, Bool, true, none, some, [], ◌∷◌, ◌++◌, map, length, All, Text, codes, take, drop,
  take-append, drop-append, same_text, ◌≡◌, ◌≢◌, ◌↔◌, refl, arith,
}
use mergecrew.Calls.{
  SignedCall, Call, Codec, Parsed, unparsed, fields, accepted, refused, split_dot, check_payload,
  body_of, mint_call_token, verify_parts, verify_call_token, Policy, SkillContext, dispatched,
  not_authorized, call_token_missing, call_token_invalid, is_allowed, includes, high_impact_skills,
  check_token, check_policy, execute,
}
use mergecrew.Calls.Token.{IsCodec, IsOf, verify-mint_iff}
use mergecrew.Calls.Gates.{IsSigned, execute-gated}

abbrev shift : Text → Text
shift t = map (λ c. c + 100) t

abbrev unshift : Text → Text
unshift t = map (λ c. c - 100) t

unfoldable written : SignedCall → Text
written p = length p.step_id ∷ length p.skill ∷ p.issued_at ∷ (p.step_id ++ (p.skill ++ p.nonce))

unfoldable read : Text → Parsed
read (a ∷ b ∷ n ∷ s) = fields (some (take a s)) (some (take b (drop a s))) (some n)
read _ = unparsed

abbrev codec : Codec
codec = record {
  digest = λ key body. key ++ body;
  to_base64url = shift;
  from_base64url = unshift;
  stringify = written;
  parse = read;
}

unshift-shift : (t : Text) → unshift (shift t) ≡ t
unshift-shift [] = refl
unshift-shift (c ∷ t) = ground (arith, unshift-shift t)

shift-dotless : (t : Text) → All (λ c. c ≢ 46) (shift t)
shift-dotless [] = tt
shift-dotless (c ∷ t) = (λ e. omega arith, shift-dotless t)

drop-front : (xs ys : Text) → drop (length xs) (xs ++ ys) ≡ ys
unfolding drop
drop-front xs ys = drop-append xs ys (length xs) 0 (omega arith)

read-written :
    (p : SignedCall) → read (written p) ≡ fields (some p.step_id) (some p.skill) (some p.issued_at)
unfolding read written
read-written p =
    let after = drop-front p.step_id (p.skill ++ p.nonce) in
    rw (take-append p.step_id (p.skill ++ p.nonce), after, take-append p.skill p.nonce) refl

codec-IsCodec : IsCodec codec
codec-IsCodec = record { decodes = unshift-shift; dotless = shift-dotless; parses = read-written }

abbrev push : Call
push = record { step_id = codes "step_7"; skill = codes "repo.git.push" }

abbrev token : Text
token = mint_call_token codec (codes "key") 1000 (codes "n") push

verify-mint_iff_example :
    (verify_call_token codec (codes "key") 300 1200 token push ≡ accepted)
    ↔ IsOf push push 1000 300 1200
verify-mint_iff_example =
    verify-mint_iff codec codec-IsCodec (codes "key") (codes "n") 300 1000 1200 push push

verdicts :
    (verify_call_token codec (codes "key") 300 1200 token push ≡ accepted)
    × (verify_call_token codec (codes "key") 300 1301 token push ≡ refused)
    × (verify_call_token codec (codes "other") 300 1200 token push ≡ refused)
    × (verify_call_token codec
          (codes "key")
          300
          1200
          token
          (record push { step_id = codes "step_8" })
        ≡ refused)
    × (verify_call_token codec (codes "key") 300 1200 [] push ≡ refused)
unfolding verify_call_token mint_call_token verify_parts body_of split_dot check_payload same_text
    read written take drop
verdicts = (refl, refl, refl, refl, refl)

abbrev policy : Policy
policy = record { key = codes "key"; token_ttl_ms = 300 }

abbrev signed : SkillContext
signed = record {
  allowed_skills = some (codes "repo.git.push" ∷ []);
  agent_step_id = some (codes "step_7");
  call_token = some token;
}

abbrev registered : Text → Bool
registered name = true

push_runs : execute codec registered (some policy) 1200 (codes "repo.git.push") signed ≡ dispatched
unfolding execute check_policy check_token is_allowed includes verify_call_token mint_call_token
    verify_parts body_of split_dot check_payload same_text read written take drop
push_runs = refl

gates :
    (execute codec registered (some policy) 1301 (codes "repo.git.push") signed
      ≡ call_token_invalid)
    × (execute codec registered (some policy) 1200 (codes "deploy.run") signed ≡ not_authorized)
    × (execute codec registered
          (some policy)
          1200
          (codes "repo.git.push")
          (record signed { call_token = none })
        ≡ call_token_missing)
unfolding execute check_policy check_token is_allowed includes verify_call_token mint_call_token
    verify_parts body_of split_dot check_payload same_text read written take drop
gates = (refl, refl, refl)

execute-gated_example :
    (registered (codes "repo.git.push") ≡ true)
    × (is_allowed (codes "repo.git.push") signed.allowed_skills ≡ true)
    × (includes (codes "repo.git.push") high_impact_skills ≡ true
        → IsSigned codec policy 1200 (codes "repo.git.push") signed.call_token signed.agent_step_id)
execute-gated_example =
    execute-gated codec policy 1200 (codes "repo.git.push") registered signed push_runs
