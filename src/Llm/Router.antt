-- ===== src/Llm/Router.antt =====
-- packages/llm/src/router.ts (`CapabilityRouter`), registry.ts (`ProviderRegistry`) and models.ts
-- (`capabilitiesFor`). A capability that is missing counts as `false` there, and here.
pub mod Laws
use text.Mathlib.Text.{starts_with, find?}
use mergecrew.Base.{
  ℕ, zero, suc, String, Option, none, some, List, [], ◌∷◌, ◌++◌, Bool, true, false, not, ◌&&◌, ◌||◌,
  str_eq, ltb, leb, if◌then◌else◌, get_or_else, or_else, is_some, any,
}
use mergecrew.Llm.Breaker.{Breaker, is_open, record_success, record_failure}
use mergecrew.Llm.Refs.{split_ref, key_of}

pub record ModelCapability : Type 0 where
  pub reasoning : Bool
  pub tools : Bool
  pub parallel_tools : Bool
  pub vision : Bool
  pub embedding : Bool
  pub thinking : Bool
  pub prompt_cache : Bool
  pub response_json_schema : Bool
  pub low_latency : Bool
  pub long_context : Option ℕ

pub data ProviderKind : Type 0 where
  anthropic openai bedrock ollama : ProviderKind

pub record ProviderConfig : Type 0 where
  pub id : String
  pub kind : ProviderKind
  pub models : List String
  pub capability_overrides : List (String × ModelCapability)

abbrev includes : String → String → Bool
includes s t = is_some (find? s t)

abbrev pub no_capability : ModelCapability
no_capability = record {
  reasoning = false;
  tools = false;
  parallel_tools = false;
  vision = false;
  embedding = false;
  thinking = false;
  prompt_cache = false;
  response_json_schema = false;
  low_latency = false;
  long_context = none;
}

abbrev embeddings : ModelCapability
embeddings = record no_capability { embedding = true }

-- `{ tools, longContext: 200_000 }`
abbrev pub chat : Bool → ModelCapability
chat tools = record no_capability { tools = tools; long_context = some 200000 }

abbrev anthropic_capabilities : String → ModelCapability
anthropic_capabilities m =
    if starts_with m "claude-opus" || starts_with m "claude-sonnet" || starts_with m "claude-haiku"
    then record (chat true) {
      parallel_tools = true;
      vision = true;
      thinking = includes m "opus" || includes m "sonnet";
      prompt_cache = true;
    }
    else chat true

abbrev openai_capabilities : String → ModelCapability
openai_capabilities m =
    if starts_with m "text-embedding-"
    then embeddings
    else if starts_with m "gpt-4" || starts_with m "gpt-5" || starts_with m "o"
    then record (chat true) {
      parallel_tools = true;
      vision = starts_with m "gpt-4o" || starts_with m "gpt-5";
      response_json_schema = true;
    }
    else chat true

abbrev bedrock_capabilities : String → ModelCapability
bedrock_capabilities m =
    if includes m "embed" || starts_with m "amazon.titan-embed" || starts_with m "cohere.embed"
    then embeddings
    else if includes m "claude"
    then record (chat true) { parallel_tools = true; vision = true }
    else chat true

abbrev ollama_capabilities : String → ModelCapability
ollama_capabilities m =
    if starts_with m "qwen3"
    then chat true
    else if starts_with m "llama3"
    then chat false
    else if starts_with m "nomic-embed" || starts_with m "mxbai-embed"
    then embeddings
    else no_capability

abbrev catalog : ProviderKind → String → ModelCapability
catalog anthropic m = anthropic_capabilities m
catalog openai m = openai_capabilities m
catalog bedrock m = bedrock_capabilities m
catalog ollama m = ollama_capabilities m

abbrev pub lookup {ℓ} : {A : Type ℓ} → String → List (String × A) → Option A
lookup k [] = none
lookup k ((j, a) ∷ xs) = if str_eq j k then some a else lookup k xs

-- A configured override, else the built-in catalog.
unfoldable pub capabilities_for : ProviderConfig → String → ModelCapability
capabilities_for cfg m = get_or_else (lookup m cfg.capability_overrides) (catalog cfg.kind m)

-- The constructor's `Map`: of two configurations with one id, the later.
unfoldable pub get_config : String → List ProviderConfig → Option ProviderConfig
get_config k [] = none
get_config k (c ∷ cs) = or_else (get_config k cs) (if str_eq c.id k then some c else none)

-- A need in the order of the source's tests.
abbrev pub flags : ModelCapability → List Bool
flags c =
    c.reasoning ∷ c.tools ∷ c.parallel_tools ∷ c.vision ∷ c.embedding ∷ c.thinking ∷ c.prompt_cache
    ∷ c.response_json_schema ∷ c.low_latency ∷ []

abbrev pub covers : List Bool → List Bool → Bool
covers [] needs = true
covers (h ∷ haves) [] = true
covers (h ∷ haves) (n ∷ needs) = if n && not h then false else covers haves needs

abbrev pub long_enough : Option ℕ → Option ℕ → Bool
long_enough have need =
    if ltb 0 (get_or_else need 0) then not (ltb (get_or_else have 0) (get_or_else need 0)) else true

unfoldable pub satisfies : ModelCapability → ModelCapability → Bool
satisfies have need =
    if covers (flags have) (flags need)
    then long_enough have.long_context need.long_context
    else false

-- `if (longest) merged.longContext = longest`
abbrev truthy : Option ℕ → Option ℕ
truthy none = none
truthy (some zero) = none
truthy (some (suc n)) = some (suc n)

abbrev pub longest : Option ℕ → Option ℕ → Option ℕ
longest a b = truthy (if leb (get_or_else b 0) (get_or_else a 0) then a else b)

unfoldable pub merge_capabilities : ModelCapability → ModelCapability → ModelCapability
merge_capabilities a b = record {
  reasoning = a.reasoning || b.reasoning;
  tools = a.tools || b.tools;
  parallel_tools = a.parallel_tools || b.parallel_tools;
  vision = a.vision || b.vision;
  embedding = a.embedding || b.embedding;
  thinking = a.thinking || b.thinking;
  prompt_cache = a.prompt_cache || b.prompt_cache;
  response_json_schema = a.response_json_schema || b.response_json_schema;
  low_latency = a.low_latency || b.low_latency;
  long_context = longest a.long_context b.long_context;
}

pub record LlmProfile : Type 0 where
  pub preference_order : List String
  pub capability_routing : List (String × ModelCapability)

pub record ResolveRequest : Type 0 where
  pub capability : ModelCapability
  pub profile : LlmProfile
  pub override : Option String
  pub agent_kind : Option String

pub record Resolved : Type 0 where
  pub provider_id : String
  pub model_id : String
  pub ref : String

-- The profile's entry for the agent's kind; the empty kind is falsy.
abbrev pub per_agent : Option String → List (String × ModelCapability) → Option ModelCapability
per_agent none routing = none
per_agent (some k) routing = if str_eq k "" then none else lookup k routing

abbrev merged_with : ModelCapability → Option ModelCapability → ModelCapability
merged_with c none = c
merged_with c (some p) = merge_capabilities c p

unfoldable pub required_capability : ResolveRequest → ModelCapability
required_capability req =
    merged_with req.capability (per_agent req.agent_kind req.profile.capability_routing)

module _ (configs : List ProviderConfig) (breaker : Breaker) (now : ℕ) where
  -- The tests on a candidate whose provider is configured.
  abbrev try_config :
      Option ProviderConfig → String → String → String → ModelCapability → Option Resolved
  try_config none p m ref need = none
  try_config (some cfg) p m ref need =
      if not (any (λ x. str_eq x m) cfg.models)
      then none
      else if not (satisfies (capabilities_for cfg m) need)
      then none
      else if is_open breaker (key_of p m) now
      then none
      else some (record { provider_id = p; model_id = m; ref = ref })

  abbrev try_parts : Option (String × String) → String → ModelCapability → Option Resolved
  try_parts none ref need = none
  try_parts (some (p, m)) ref need = try_config (get_config p configs) p m ref need

  unfoldable pub try_candidate : String → ModelCapability → Option Resolved
  try_candidate ref need = try_parts (split_ref ref) ref need

  unfoldable pub first_candidate : List String → ModelCapability → Option Resolved
  first_candidate [] need = none
  first_candidate (ref ∷ refs) need = or_else (try_candidate ref need) (first_candidate refs need)

abbrev overriding : Option String → List String
overriding none = []
overriding (some r) = if str_eq r "" then [] else r ∷ []

abbrev pub candidates : ResolveRequest → List String
candidates req = overriding req.override ++ req.profile.preference_order

-- `none` is the thrown `ProviderUnavailableError`.
unfoldable pub resolve : List ProviderConfig → Breaker → ℕ → ResolveRequest → Option Resolved
resolve configs breaker now req =
    first_candidate configs breaker now (candidates req) (required_capability req)

unfoldable pub record_outcome : Breaker → ℕ → String → String → Bool → Breaker
record_outcome breaker now p m ok =
    if ok then record_success breaker (key_of p m) now else record_failure breaker (key_of p m) now
