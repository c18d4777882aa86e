-- ===== src/Policy/Laws.antt =====
-- What the policy engine refuses.
use mergecrew.Base.{
  String, Option, none, some, List, [], ◌∷◌, Bool, true, false, ◌≡◌, refl, ◌↔◌, All, Any, here,
  there, arith, or_else, or_else-none, All-Any, All-map, Any-map, Any-some, sym, ap, ◌∙◌,
  Option-cases, Bool-cases, inl, inr,
}
use mergecrew.Policy.{
  PolicyContext, PolicyDecision, Refusal, GateReason, sensitive_path, ToolInput, paths_from_input,
  first_of, refusal, scan, scan_heuristics, sensitive_heuristics, by_heuristic, check_paths, check,
}
use mergecrew.Policy.Glob.{minimatch}

module _ {ℓ κ} {A : Type ℓ} {B : Type κ} where
  first_of-none : (f : A → Option B) (xs : List A) → first_of f xs ≡ none → All (λ x. f x ≡ none) xs
  unfolding first_of
  first_of-none f [] e = tt
  first_of-none f (x ∷ xs) e = elim (Option-cases (f x)) [
    | inl q ↦ (q, first_of-none f xs (rw q at e))
    | inr (d, q) ↦ cc (q, rw q at e)
  ]

  none-first_of : (f : A → Option B) (xs : List A) → All (λ x. f x ≡ none) xs → first_of f xs ≡ none
  unfolding first_of
  none-first_of f [] h = refl
  none-first_of f (x ∷ xs) (e, h) = rw e (none-first_of f xs h)

  first_of-some :
      (f : A → Option B) (xs : List A) {d : B} → first_of f xs ≡ some d → Any (λ x. f x ≡ some d) xs
  unfolding first_of
  first_of-some f [] e = cc
  first_of-some f (x ∷ xs) e = elim (Option-cases (f x)) [
    | inl q ↦ there (first_of-some f xs (rw q at e))
    | inr (y, q) ↦ here (cc (q, rw q at e))
  ]

-- No pattern of the list matches the path.
abbrev pub IsFree : List String → String → Type 0
IsFree patterns p = All (λ g. minimatch p g ≡ false) patterns

refusal-none :
    (reason : GateReason) (hard : Bool) (words p g : String)
    → (refusal reason hard words p g ≡ none) ↔ (minimatch p g ≡ false)
refusal-none reason hard words p g = (λ e. ground arith, λ e. ground arith)

scan-none :
    (reason : GateReason) (hard : Bool) (words : String) (patterns written : List String)
    → (scan reason hard words patterns written ≡ none) ↔ All (IsFree patterns) written
unfolding scan
scan-none reason hard words patterns written = (
  λ e.
      All-map
        (λ p q.
          All-map (λ g. (refusal-none reason hard words p g).0) patterns
            (first_of-none _ patterns q))
        written (first_of-none _ written e),
  λ h. none-first_of _ written (
      All-map
        (λ p q.
          none-first_of _ patterns
            (All-map (λ g. (refusal-none reason hard words p g).1) patterns q))
        written h),
)

-- No heuristic flags the path.
abbrev pub IsPlain : String → Type 0
IsPlain p = All (λ h. IsFree h.1 p) sensitive_heuristics

by_heuristic-none :
    (p : String) (h : GateReason × List String) → (by_heuristic p h ≡ none) ↔ IsFree h.1 p
by_heuristic-none p (reason, patterns) = (
  λ e. All-map (λ g. (refusal-none reason false _ p g).0) patterns (first_of-none _ patterns e),
  λ h. none-first_of _ patterns (All-map (λ g. (refusal-none reason false _ p g).1) patterns h),
)

scan_heuristics-none :
    (written : List String) → (scan_heuristics written ≡ none) ↔ All IsPlain written
unfolding scan_heuristics
scan_heuristics-none written = (
  λ e.
      All-map
        (λ p q.
          All-map (λ h. (by_heuristic-none p h).0) sensitive_heuristics
            (first_of-none (by_heuristic p) sensitive_heuristics q))
        written (first_of-none _ written e),
  λ a. none-first_of _ written (
      All-map
        (λ p q.
          none-first_of (by_heuristic p) sensitive_heuristics
            (All-map (λ h. (by_heuristic-none p h).1) sensitive_heuristics q))
        written a),
)

-- A call is allowed exactly when no path that it writes matches a pattern of the context or a heuristic.
pub check-allowed_iff :
    (ctx : PolicyContext) (skill : String) (input : Option ToolInput)
    → (check ctx skill input ≡ none) ↔ (
        All (IsFree ctx.project_hard_blocked) (paths_from_input skill input)
        × All (IsFree ctx.agent_do_not_touch) (paths_from_input skill input)
        × All (IsFree ctx.project_sensitive_patterns) (paths_from_input skill input)
        × All IsPlain (paths_from_input skill input))
unfolding check check_paths
check-allowed_iff ctx skill input =
    let written = paths_from_input skill input in
    let hard =
      scan-none sensitive_path true " matches hard-block " ctx.project_hard_blocked written in
    let agent =
      scan-none sensitive_path false " matches agent do-not-touch " ctx.agent_do_not_touch
        written in
    let project =
      scan-none sensitive_path false " matches project sensitive " ctx.project_sensitive_patterns
        written in
    let plain = scan_heuristics-none written in
    (
      λ e.
          let (h, e1) = (or_else-none _ _).0 e in
          let (a, e2) = (or_else-none _ _).0 e1 in
          let (p, e3) = (or_else-none _ _).0 e2 in (hard.0 h, agent.0 a, project.0 p, plain.0 e3),
      λ (h, a, p, q). (or_else-none _ _).1 (
        hard.1 h,
        (or_else-none _ _).1 (agent.1 a, (or_else-none _ _).1 (project.1 p, plain.1 q)),
      ),
    )

abbrev pub is_hard : PolicyDecision → Bool
is_hard none = false
is_hard (some r) = r.hard

or_else-soft :
    (o r : PolicyDecision) → is_hard o ≡ false → is_hard r ≡ false → is_hard (or_else o r) ≡ false
or_else-soft none r a b = b
or_else-soft (some d) r a b = a

-- What every answer of the function has, the loop's answer has.
first_of-all {ℓ} :
    {A : Type ℓ} (f : A → PolicyDecision) (xs : List A)
    → ((x : A) → is_hard (f x) ≡ false)
    → is_hard (first_of f xs) ≡ false
unfolding first_of
first_of-all f [] h = refl
first_of-all f (x ∷ xs) h = or_else-soft (f x) (first_of f xs) (h x) (first_of-all f xs h)

refusal-soft :
    (reason : GateReason) (words p g : String) → is_hard (refusal reason false words p g) ≡ false
refusal-soft reason words p g = ground arith

scan-soft :
    (reason : GateReason) (words : String) (patterns written : List String)
    → is_hard (scan reason false words patterns written) ≡ false
unfolding scan
scan-soft reason words patterns written =
    first_of-all _ written (λ p. first_of-all _ patterns (refusal-soft reason words p))

by_heuristic-soft : (p : String) (h : GateReason × List String) → is_hard (by_heuristic p h) ≡ false
by_heuristic-soft p (reason, patterns) = first_of-all _ patterns (refusal-soft reason _ p)

scan_heuristics-soft : (written : List String) → is_hard (scan_heuristics written) ≡ false
unfolding scan_heuristics
scan_heuristics-soft written =
    first_of-all _ written
      (λ p. first_of-all (by_heuristic p) sensitive_heuristics (by_heuristic-soft p))

-- A loop's answer is some pair's.
scan-pair :
    (reason : GateReason) (hard : Bool) (words : String) (patterns written : List String)
    {d : Refusal}
    → scan reason hard words patterns written ≡ some d
    → Any (λ p. Any (λ g. refusal reason hard words p g ≡ some d) patterns) written
unfolding scan
scan-pair reason hard words patterns written e =
    Any-map (λ p. first_of-some (refusal reason hard words p) patterns) (first_of-some _ written e)

refusal-matched :
    (reason : GateReason) (hard : Bool) (words p g : String) {d : Refusal}
    → refusal reason hard words p g ≡ some d
    → (minimatch p g ≡ true) × (d.hard ≡ hard)
refusal-matched reason hard words p g e = elim (Bool-cases (minimatch p g)) [
  | inl q ↦ (q, sym (ap is_hard (rw q at e)))
  | inr q ↦ cc (q, rw q at e)
]

clear_of-hit :
    (patterns written : List String)
    → Any (λ p. Any (λ g. minimatch p g ≡ true) patterns) written
    → All (IsFree patterns) written
    → ⊥
clear_of-hit patterns written a h =
    let (p, free, hit) = All-Any a h in let (g, f, t) = All-Any hit free in cc (f, t)

scan-hard_iff :
    (reason : GateReason) (words : String) (patterns written : List String)
    → (is_hard (scan reason true words patterns written) ≡ true)
      ↔ Any (λ p. Any (λ g. minimatch p g ≡ true) patterns) written
scan-hard_iff reason words patterns written =
    elim (Option-cases (scan reason true words patterns written)) [
      | inl q ↦ (
        λ e. cc (ap is_hard q, e),
        λ a.
            elim (clear_of-hit patterns written a
              ((scan-none reason true words patterns written).0 q)) [ ],
      )
      | inr (d, q) ↦
          let pairs = scan-pair reason true words patterns written q in
          let (p, some_g) = Any-some pairs in
          let (g, e) = Any-some some_g in
          (
            λ h. Any-map (λ p. Any-map (λ g r. (refusal-matched reason true words p g r).0)) pairs,
            λ a. ap is_hard q ∙ (refusal-matched reason true words p g e).1,
          )
    ]

or_else-hard : (o r : PolicyDecision) → is_hard r ≡ false → is_hard (or_else o r) ≡ is_hard o
or_else-hard none r h = h
or_else-hard (some d) r h = refl

-- A refusal that no approval lifts is given exactly when a path that the call writes matches a hard block,
-- whatever the softer patterns say.
pub check-hard_iff :
    (ctx : PolicyContext) (skill : String) (input : Option ToolInput)
    → (is_hard (check ctx skill input) ≡ true)
      ↔ Any
          (λ p. Any (λ g. minimatch p g ≡ true) ctx.project_hard_blocked)
          (paths_from_input skill input)
unfolding check check_paths
check-hard_iff ctx skill input =
    let written = paths_from_input skill input in
    let soft =
      or_else-hard
        (scan sensitive_path true " matches hard-block " ctx.project_hard_blocked written) _
        (or_else-soft
          (scan sensitive_path false " matches agent do-not-touch " ctx.agent_do_not_touch written)
          _ (scan-soft sensitive_path _ _ written)
          (or_else-soft
            (scan sensitive_path false " matches project sensitive " ctx.project_sensitive_patterns
              written)
            _ (scan-soft sensitive_path _ _ written) (scan_heuristics-soft written))) in
    let hit =
      scan-hard_iff sensitive_path " matches hard-block " ctx.project_hard_blocked written in
    (λ e. hit.0 (sym soft ∙ e), λ a. soft ∙ hit.1 a)
