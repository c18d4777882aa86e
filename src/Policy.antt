-- ===== src/Policy.antt =====
-- packages/agent-runtime/src/policy.ts: what an agent may write (`PolicyEngine`).
pub mod Glob
pub mod Laws
mod Tests
use mergecrew.Base.{
  String, Option, none, some, List, [], ◌∷◌, Bool, true, false, str_eq, if◌then◌else◌, or_else,
}
use mergecrew.Policy.Glob.{minimatch, join}

-- packages/domain/src/gates.ts
pub data GateReason : Type 0 where
  production_promote sensitive_path auth_path billing_path : GateReason
  migration major_dep_bump budget_exhausted manual_intervention : GateReason

pub record PolicyContext : Type 0 where
  pub agent_do_not_touch : List String
  pub project_sensitive_patterns : List String
  pub project_hard_blocked : List String

pub record Refusal : Type 0 where
  pub reason : GateReason
  pub detail : String
  -- no approval lifts it
  pub hard : Bool

-- `none` is `{ ok: true }`.
abbrev pub PolicyDecision : Type 0
PolicyDecision = Option Refusal

-- A value of a tool call's input: a text, or something else.
pub data Value : Type 0 where
  text : String → Value
  other : Value

-- The fields of the input that the engine reads; `none` where the field is missing or `paths` is no array.
pub record ToolInput : Type 0 where
  pub path : Option Value
  pub paths : Option (List Value)

abbrev pub one_path : Option Value → List String
one_path (some (text p)) = p ∷ []
one_path _ = []

abbrev pub texts : List Value → List String
texts [] = []
texts (text p ∷ vs) = p ∷ texts vs
texts (other ∷ vs) = texts vs

abbrev all_texts : Option (List Value) → List String
all_texts none = []
all_texts (some vs) = texts vs

-- The paths that a call writes; `none` is an input that is no object.
unfoldable pub paths_from_input : String → Option ToolInput → List String
paths_from_input skill none = []
paths_from_input skill (some i) =
    if str_eq skill "repo.write_file"
    then one_path i.path
    else if str_eq skill "repo.read_file"
    then []
    else if str_eq skill "repo.list_paths"
    then []
    else if str_eq skill "repo.search"
    then []
    else if str_eq skill "repo.git.commit"
    then all_texts i.paths
    else []

-- The nested loops: for each path, for each pattern, the decision of the first pair that matches.
unfoldable pub first_of {ℓ κ} : {A : Type ℓ} {B : Type κ} → (A → Option B) → List A → Option B
first_of f [] = none
first_of f (x ∷ xs) = or_else (f x) (first_of f xs)

abbrev pub refusal : GateReason → Bool → String → String → String → PolicyDecision
refusal reason hard words p pattern =
    if minimatch p pattern
    then some (record { reason = reason; detail = join p (join words pattern); hard = hard })
    else none

unfoldable pub scan : GateReason → Bool → String → List String → List String → PolicyDecision
unfolding first_of
scan reason hard words patterns written =
    first_of (λ p. first_of (refusal reason hard words p) patterns) written

abbrev pub sensitive_heuristics : List (GateReason × List String)
sensitive_heuristics =
    (auth_path, "**/auth/**" ∷ "**/sessions/**" ∷ "**/passwords/**" ∷ [])
    ∷ (billing_path, "**/billing/**" ∷ "**/payments/**" ∷ "**/invoice/**" ∷ [])
    ∷ (migration, "**/migrations/**" ∷ "**/prisma/migrations/**" ∷ [])
    ∷ []

abbrev pub by_heuristic : String → GateReason × List String → PolicyDecision
by_heuristic p (reason, patterns) =
    first_of (refusal reason false " flagged by heuristic " p) patterns

unfoldable pub scan_heuristics : List String → PolicyDecision
unfolding first_of
scan_heuristics written = first_of (λ p. first_of (by_heuristic p) sensitive_heuristics) written

unfoldable pub check_paths : PolicyContext → List String → PolicyDecision
unfolding scan scan_heuristics
check_paths ctx written =
    or_else (scan sensitive_path true " matches hard-block " ctx.project_hard_blocked written) (
      or_else
        (scan sensitive_path false " matches agent do-not-touch " ctx.agent_do_not_touch written)
        (or_else
          (scan sensitive_path false " matches project sensitive " ctx.project_sensitive_patterns
            written)
          (scan_heuristics written)))

unfoldable pub check : PolicyContext → String → Option ToolInput → PolicyDecision
unfolding check_paths
check ctx skill input = check_paths ctx (paths_from_input skill input)
