-- ===== src/Llm/Tests.antt =====
-- The circuit breaker and the router on concrete input.
use mergecrew.Base.{◌+◌, ◌<◌, none, some, List, [], ◌∷◌, true, ◌≡◌, refl, ◌↔◌}
use mergecrew.Llm.Breaker.{
  Breaker, BreakerState, get, put, is_open, record_failure, with_failure, maybe_roll_window,
}
use mergecrew.Llm.Breaker.Laws.{record_failure-opens, Tripped}
use mergecrew.Llm.Router.{
  ModelCapability, ProviderConfig, anthropic, ollama, no_capability, chat, ResolveRequest, Resolved,
  resolve, required_capability, candidates,
}
use mergecrew.Llm.Router.Laws.{resolve_iff, IsFirst}

-- Nine calls, two of them failures: a third failure opens the breaker.
abbrev shaky : Breaker
shaky =
    (
      "anthropic/claude-opus",
      record { failures = 2; successes = 7; window_start = 0; open_until = 0 },
    )
    ∷ []

record_failure-opens_example :
    (s : BreakerState) × (get "anthropic/claude-opus"
        (record_failure shaky "anthropic/claude-opus" 10)
      ≡ some s)
    × Tripped 10 s
    × (20 < 10 + 60000)
unfolding is_open record_failure get put with_failure maybe_roll_window
record_failure-opens_example = record_failure-opens shaky "anthropic/claude-opus" 10 20 refl refl

abbrev seeing : ModelCapability
seeing = record no_capability { vision = true; long_context = some 200000 }

abbrev providers : List ProviderConfig
providers =
    record { id = "local"; kind = ollama; models = "qwen3" ∷ []; capability_overrides = [] }
    ∷ record {
      id = "claude";
      kind = anthropic;
      models = "claude-opus" ∷ [];
      capability_overrides = [];
    }
    ∷ []

abbrev request : ResolveRequest
request = record {
  capability = chat true;
  profile = record {
    preference_order = "local/qwen3" ∷ "claude/claude-opus" ∷ [];
    capability_routing = ("designer", seeing) ∷ [];
  };
  override = none;
  agent_kind = some "designer";
}

abbrev opus : Resolved
opus = record { provider_id = "claude"; model_id = "claude-opus"; ref = "claude/claude-opus" }

resolve_iff_example :
    (resolve providers shaky 20 request ≡ some opus)
    ↔ IsFirst providers shaky 20 (required_capability request) opus (candidates request)
resolve_iff_example = resolve_iff providers shaky 20 request opus
