-- ===== src/Runner/Cancellation.antt =====
-- apps/runner/src/cancellation.ts: `CancellationCoordinator`. A controller is a number, and `aborted` lists the controllers that
-- were aborted; to abort one again does nothing. The reason's text is left out.
pub mod Replay
use mergecrew.Base.{
  ℕ, ◌+◌, String, Option, none, some, List, [], ◌∷◌, ◌++◌, Bool, true, false, not, ◌||◌, ◌==◌,
  str_eq, if◌then◌else◌, any, keep, length, get_or_else, set_entry, lookup_in,
}

-- A run's steps in flight.
abbrev pub InFlight : Type 0
InFlight = List (String × List ℕ)

pub record Coordinator : Type 0 where
  pub inflight : InFlight
  pub aborted : List ℕ

abbrev pub run_key : String × List ℕ → String
run_key e = e.0

abbrev pub set_found : Option (String × List ℕ) → List ℕ
set_found none = []
set_found (some e) = e.1

-- `inflight.get(runId)`, where no set is an empty one.
abbrev pub set_of : String → InFlight → List ℕ
set_of run m = set_found (lookup_in run_key run m)

-- `set.add` and `set.delete`
abbrev pub add_to : ℕ → List ℕ → List ℕ
add_to c set = if any (λ d. d == c) set then set else set ++ (c ∷ [])

abbrev pub delete_from : ℕ → List ℕ → List ℕ
delete_from c set = keep (λ d. not (d == c)) set

unfoldable pub register : String → ℕ → Coordinator → Coordinator
register run c k = record k {
  inflight = set_entry run_key (run, add_to c (set_of run k.inflight)) k.inflight;
}

-- A set that is empty is taken out of the map.
abbrev pub store_set : String → List ℕ → InFlight → InFlight
store_set run [] m = keep (λ e. not (str_eq e.0 run)) m
store_set run (c ∷ cs) m = set_entry run_key (run, c ∷ cs) m

-- What `register` returns; a run without a set is left alone.
abbrev pub unregister_found : String → ℕ → Option (String × List ℕ) → InFlight → InFlight
unregister_found run c none m = m
unregister_found run c (some e) m = store_set run (delete_from c e.1) m

unfoldable pub unregister : String → ℕ → Coordinator → Coordinator
unregister run c k = record k {
  inflight = unregister_found run c (lookup_in run_key run k.inflight) k.inflight;
}

abbrev pub abort_all : List ℕ → List ℕ → List ℕ
abort_all [] aborted = aborted
abort_all (c ∷ cs) aborted = abort_all cs (add_to c aborted)

-- How many steps were signalled, and the coordinator after it.
unfoldable pub cancel_run : String → Coordinator → ℕ × Coordinator
cancel_run run k = (
  length (set_of run k.inflight),
  record k { aborted = abort_all (set_of run k.inflight) k.aborted },
)

abbrev pub count_all : InFlight → ℕ
count_all [] = 0
count_all (e ∷ m) = length e.1 + count_all m

-- `runId` given and not the empty text, or none.
unfoldable pub inflight_count : Option String → Coordinator → ℕ
inflight_count none k = count_all k.inflight
inflight_count (some run) k =
    if str_eq run "" then count_all k.inflight else length (set_of run k.inflight)
