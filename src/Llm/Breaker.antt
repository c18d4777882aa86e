-- ===== src/Llm/Breaker.antt =====
-- packages/llm/src/circuit-breaker.ts. Times are milliseconds; each call takes the present time.
pub mod Laws
use mergecrew.Base.{
  ℕ, suc, ◌+◌, ◌-◌, ◌*◌, String, Option, none, some, List, [], ◌∷◌, Bool, true, false, ◌&&◌, str_eq,
  ltb, leb, if◌then◌else◌, get_or_else,
}

pub record BreakerState : Type 0 where
  pub failures : ℕ
  pub successes : ℕ
  pub window_start : ℕ
  pub open_until : ℕ

abbrev pub window_ms : ℕ
window_ms = 60000

abbrev pub min_samples : ℕ
min_samples = 10

abbrev pub open_duration_ms : ℕ
open_duration_ms = 60000

-- The `Map` from keys to states; a write replaces the key's entry or adds one.
abbrev pub Breaker : Type 0
Breaker = List (String × BreakerState)

unfoldable pub get : String → Breaker → Option BreakerState
get k [] = none
get k ((j, s) ∷ b) = if str_eq j k then some s else get k b

unfoldable pub put : String → BreakerState → Breaker → Breaker
put k s [] = (k, s) ∷ []
put k s ((j, t) ∷ b) = if str_eq j k then (j, s) ∷ b else (j, t) ∷ put k s b

abbrev is_open_at : Option BreakerState → ℕ → Bool
is_open_at none now = false
is_open_at (some s) now = ltb now s.open_until

unfoldable pub is_open : Breaker → String → ℕ → Bool
is_open b k now = is_open_at (get k b) now

-- `ensure` starts a key's window with this state.
abbrev fresh : ℕ → BreakerState
fresh now = record { failures = 0; successes = 0; window_start = now; open_until = 0 }

-- `now - windowStart > WINDOW_MS`; a clock that went back does not roll the window.
unfoldable pub maybe_roll_window : BreakerState → ℕ → BreakerState
maybe_roll_window s now =
    if ltb window_ms (now - s.window_start)
    then record s { window_start = now; failures = 0; successes = 0 }
    else s

-- The key's state in the present window, with one more success.
unfoldable pub with_success : Option BreakerState → ℕ → BreakerState
unfolding maybe_roll_window
with_success o now =
    let s = maybe_roll_window (get_or_else o (fresh now)) now in
    record s { successes = s.successes + 1 }

unfoldable pub record_success : Breaker → String → ℕ → Breaker
record_success b k now = put k (with_success (get k b) now) b

-- `failures / total >= 0.25`
abbrev pub too_many : ℕ → ℕ → Bool
too_many failures total = leb min_samples total && leb total (4 * failures)

abbrev pub trip : BreakerState → ℕ → BreakerState
trip s now =
    if too_many s.failures (s.successes + s.failures)
    then record s { open_until = now + open_duration_ms }
    else s

unfoldable pub with_failure : Option BreakerState → ℕ → BreakerState
unfolding maybe_roll_window
with_failure o now =
    let s = maybe_roll_window (get_or_else o (fresh now)) now in
    trip (record s { failures = s.failures + 1 }) now

unfoldable pub record_failure : Breaker → String → ℕ → Breaker
record_failure b k now = put k (with_failure (get k b) now) b
