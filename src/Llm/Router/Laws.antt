-- ===== src/Llm/Router/Laws.antt =====
-- What the router promises of the model that it picks.
use mergecrew.Base.{
  and-eq-true, ℕ, zero, suc, max, ap, subst, String, Option, none, some, List, [], ◌∷◌, Bool, true,
  false, not, ◌&&◌, ◌||◌, ◌≡◌, refl, sym, ◌∙◌, arith, str_eq, ltb, leb, if◌then◌else◌, get_or_else,
  any, Option-cases, inl, inr, ◌↔◌,
}
use mergecrew.Llm.Breaker.{Breaker, is_open}
use mergecrew.Llm.Refs.{split_ref, key_of}
use mergecrew.Llm.Router.{
  ModelCapability, ProviderConfig, ResolveRequest, Resolved, flags, covers, long_enough, longest,
  truthy, satisfies, merge_capabilities, capabilities_for, get_config, try_config, try_parts,
  try_candidate, first_candidate, candidates, resolve, required_capability, per_agent, merged_with,
}

zip_or : List Bool → List Bool → List Bool
zip_or [] bs = bs
zip_or (a ∷ xs) [] = a ∷ xs
zip_or (a ∷ xs) (b ∷ bs) = (a || b) ∷ zip_or xs bs

covers-or : (hs xs ys : List Bool) → covers hs (zip_or xs ys) ≡ (covers hs xs && covers hs ys)
unfolding zip_or
covers-or [] xs ys = refl
covers-or (h ∷ hs) [] ys = refl
covers-or (h ∷ hs) (x ∷ xs) [] = ground arith
covers-or (h ∷ hs) (x ∷ xs) (y ∷ ys) = ground (arith, covers-or hs xs ys)

enough : ℕ → ℕ → Bool
enough have need = if ltb 0 need then not (ltb have need) else true

enough-max : (h a b : ℕ) → enough h (max a b) ≡ (enough h a && enough h b)
unfolding enough
enough-max h a b = ground arith

truthy-amount : (o : Option ℕ) → get_or_else (truthy o) 0 ≡ get_or_else o 0
truthy-amount none = refl
truthy-amount (some zero) = refl
truthy-amount (some (suc n)) = refl

longest-max :
    (a b : Option ℕ) → get_or_else (longest a b) 0 ≡ max (get_or_else a 0) (get_or_else b 0)
longest-max none none = ground arith
longest-max none (some b) = rw (truthy-amount (if leb b 0 then none else some b)) (ground arith)
longest-max (some a) none = rw (truthy-amount (if leb 0 a then some a else none)) (ground arith)
longest-max (some a) (some b) =
    rw (truthy-amount (if leb b a then some a else some b)) (ground arith)

long_enough-longest :
    (h a b : Option ℕ) → long_enough h (longest a b) ≡ (long_enough h a && long_enough h b)
unfolding enough
long_enough-longest h a b =
    ap (enough (get_or_else h 0)) (longest-max a b)
    ∙ enough-max (get_or_else h 0) (get_or_else a 0) (get_or_else b 0)

interleave :
    (p q r s : Bool)
    → (if p && q then r && s else false) ≡ ((if p then r else false) && (if q then s else false))
interleave p q r s = ground arith

-- A model has the merged capabilities exactly when it has both.
pub satisfies-merge_capabilities :
    (have a b : ModelCapability)
    → satisfies have (merge_capabilities a b) ≡ (satisfies have a && satisfies have b)
unfolding satisfies merge_capabilities zip_or
satisfies-merge_capabilities have a b =
    rw
      (
        covers-or (flags have) (flags a) (flags b),
        long_enough-longest have.long_context a.long_context b.long_context,
      )
      (interleave (covers (flags have) (flags a)) (covers (flags have) (flags b))
        (long_enough have.long_context a.long_context)
        (long_enough have.long_context b.long_context))

-- What holds of a picked model.
pub record IsUsable (configs : List ProviderConfig) (breaker : Breaker) (now : ℕ)
    (need : ModelCapability) (r : Resolved) : Type 0 where
  pub config : ProviderConfig
  pub configured : get_config r.provider_id configs ≡ some config
  pub listed : any (λ x. str_eq x r.model_id) config.models ≡ true
  pub capable : satisfies (capabilities_for config r.model_id) need ≡ true
  pub closed : is_open breaker (key_of r.provider_id r.model_id) now ≡ false
  pub named : split_ref r.ref ≡ some (r.provider_id, r.model_id)

-- The first of the candidates that is usable.
pub data IsFirst (configs : List ProviderConfig) (breaker : Breaker) (now : ℕ)
    (need : ModelCapability) (r : Resolved) : List String → Type 0 where
  now_ok :
      {ref : String} {refs : List String}
      → IsUsable configs breaker now need r
      → try_candidate configs breaker now ref need ≡ some r
      → IsFirst configs breaker now need r (ref ∷ refs)
  later :
      {ref : String} {refs : List String}
      → try_candidate configs breaker now ref need ≡ none
      → IsFirst configs breaker now need r refs
      → IsFirst configs breaker now need r (ref ∷ refs)

IsFirst-IsUsable :
    (configs : List ProviderConfig) (breaker : Breaker) (now : ℕ) (need : ModelCapability)
    (r : Resolved) (refs : List String)
    → IsFirst configs breaker now need r refs
    → IsUsable configs breaker now need r
IsFirst-IsUsable configs breaker now need r [] a = elim a [ ]
IsFirst-IsUsable configs breaker now need r (ref ∷ refs) (now_ok u e) = u
IsFirst-IsUsable configs breaker now need r (ref ∷ refs) (later e f) =
    IsFirst-IsUsable configs breaker now need r refs f

-- The tests on a configured candidate, as facts.
guards {ℓ} :
    {A : Type ℓ} (a b c : Bool) (x r : A)
    → (if not a then none else if not b then none else if c then none else some x) ≡ some r
    → (a ≡ true) × (b ≡ true) × (c ≡ false) × (x ≡ r)
guards a b c x r e = ground arith

module _ (configs : List ProviderConfig) (breaker : Breaker) (now : ℕ) where
  try_config-IsUsable :
      (o : Option ProviderConfig) (p m ref : String) (need : ModelCapability) (r : Resolved)
      → get_config p configs ≡ o
      → split_ref ref ≡ some (p, m)
      → try_config configs breaker now o p m ref need ≡ some r
      → IsUsable configs breaker now need r
  try_config-IsUsable none p m ref need r g s e = cc
  try_config-IsUsable (some cfg) p m ref need r g s e =
      let (listed, capable, closed, same) = guards _ _ _ _ _ e in
      subst (λ x. IsUsable configs breaker now need x) same
        (record {
          config = cfg;
          configured = g;
          listed = listed;
          capable = capable;
          closed = closed;
          named = s;
        })

  try_parts-IsUsable :
      (o : Option (String × String)) (ref : String) (need : ModelCapability) (r : Resolved)
      → split_ref ref ≡ o
      → try_parts configs breaker now o ref need ≡ some r
      → IsUsable configs breaker now need r
  try_parts-IsUsable none ref need r s e = cc
  try_parts-IsUsable (some (p, m)) ref need r s e =
      try_config-IsUsable (get_config p configs) p m ref need r refl s e

  try_candidate-IsUsable :
      (ref : String) (need : ModelCapability) (r : Resolved)
      → try_candidate configs breaker now ref need ≡ some r
      → IsUsable configs breaker now need r
  unfolding try_candidate
  try_candidate-IsUsable ref need r e = try_parts-IsUsable (split_ref ref) ref need r refl e

  first_candidate-IsFirst :
      (refs : List String) (need : ModelCapability) (r : Resolved)
      → first_candidate configs breaker now refs need ≡ some r
      → IsFirst configs breaker now need r refs
  unfolding first_candidate
  first_candidate-IsFirst [] need r e = cc
  first_candidate-IsFirst (ref ∷ refs) need r e =
      elim (Option-cases (try_candidate configs breaker now ref need)) [
        | inl q ↦ later q (first_candidate-IsFirst refs need r (rw q at e))
        | inr (x, q) ↦
            let same = rw q at e in
            now_ok (try_candidate-IsUsable ref need r (cc (q, same))) (cc (q, same))
      ]

IsFirst-some :
    (configs : List ProviderConfig) (breaker : Breaker) (now : ℕ) (need : ModelCapability)
    (refs : List String) (r : Resolved)
    → IsFirst configs breaker now need r refs
    → first_candidate configs breaker now refs need ≡ some r
unfolding first_candidate
IsFirst-some configs breaker now need [] r a = elim a [ ]
IsFirst-some configs breaker now need (ref ∷ refs) r (now_ok u e) = rw e refl
IsFirst-some configs breaker now need (ref ∷ refs) r (later e f) =
    rw e (IsFirst-some configs breaker now need refs r f)

-- The router answers with `r` exactly when `r` comes from the first candidate that passes the tests, and a model
-- that passes is configured, listed, has what the request and its agent's kind need, and its breaker is closed.
pub resolve_iff :
    (configs : List ProviderConfig) (breaker : Breaker) (now : ℕ) (req : ResolveRequest)
    (r : Resolved)
    → (resolve configs breaker now req ≡ some r)
      ↔ IsFirst configs breaker now (required_capability req) r (candidates req)
unfolding resolve
resolve_iff configs breaker now req r = (
  first_candidate-IsFirst configs breaker now (candidates req) (required_capability req) r,
  IsFirst-some configs breaker now (required_capability req) (candidates req) r,
)

-- Where an agent's kind has a routing entry, the model that is picked has the request's capability and the entry's.
pub resolve-capable :
    (configs : List ProviderConfig) (breaker : Breaker) (now : ℕ) (req : ResolveRequest)
    (r : Resolved) (extra : ModelCapability)
    → per_agent req.agent_kind req.profile.capability_routing ≡ some extra
    → resolve configs breaker now req ≡ some r
    → (config : ProviderConfig) × (get_config r.provider_id configs ≡ some config)
      × (satisfies (capabilities_for config r.model_id) req.capability ≡ true)
      × (satisfies (capabilities_for config r.model_id) extra ≡ true)
unfolding required_capability
resolve-capable configs breaker now req r extra p e =
    let u = IsFirst-IsUsable _ _ _ _ _ _ ((resolve_iff configs breaker now req r).0 e) in
    let have = capabilities_for u.config r.model_id in
    let capable : satisfies have (merged_with req.capability (some extra)) ≡ true =
      rw p at u.capable in
    let both =
      and-eq-true _ _ (sym (satisfies-merge_capabilities have req.capability extra) ∙ capable) in
    (u.config, u.configured, both.0, both.1)
