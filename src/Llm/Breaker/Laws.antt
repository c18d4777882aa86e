-- ===== src/Llm/Breaker/Laws.antt =====
-- When the circuit breaker is open.
use mergecrew.Base.{
  ℕ, ◌+◌, ◌*◌, ◌≤◌, ◌<◌, String, Option, none, some, List, [], ◌∷◌, true, false, ◌≡◌, ◌≢◌, refl,
  sym, subst, ◌∙◌, All, arith, str_eq, eq_iff, if◌then◌else◌, Bool-cases, inl, inr,
}
use mergecrew.Llm.Breaker.{
  Breaker, BreakerState, get, put, is_open, is_open_at, with_success, with_failure, record_success,
  record_failure,
}

get-put :
    (k j : String) (s : BreakerState) (b : Breaker)
    → get j (put k s b) ≡ (if str_eq k j then some s else get j b)
unfolding get put
get-put k j s [] = refl
get-put k j s ((i, t) ∷ b) = ground (arith, eq_iff k j, eq_iff i k, eq_iff i j, get-put k j s b)

get-put_self : (k : String) (s : BreakerState) (b : Breaker) → get k (put k s b) ≡ some s
get-put_self k s b = ground (arith, get-put k k s b, eq_iff k k)

get-put_other :
    (k j : String) (s : BreakerState) (b : Breaker) → k ≢ j → get j (put k s b) ≡ get j b
get-put_other k j s b ne = ground (arith, get-put k j s b, eq_iff k j)

-- What is recorded for one model says nothing of another.
pub record-other :
    (b : Breaker) (k j : String) (now later : ℕ)
    → k ≢ j
    → (is_open (record_success b k now) j later ≡ is_open b j later)
      × (is_open (record_failure b k now) j later ≡ is_open b j later)
unfolding is_open record_success record_failure
record-other b k j now later ne = (
  rw (get-put_other k j (with_success (get k b) now) b ne) refl,
  rw (get-put_other k j (with_failure (get k b) now) b ne) refl,
)

with_success-open :
    (o : Option BreakerState) (now later : ℕ)
    → is_open_at (some (with_success o now)) later ≡ is_open_at o later
unfolding with_success
with_success-open none now later = ground arith
with_success-open (some s) now later = ground arith

-- A success neither opens nor closes a model's breaker.
pub record_success-is_open :
    (b : Breaker) (k : String) (now later : ℕ)
    → is_open (record_success b k now) k later ≡ is_open b k later
unfolding is_open record_success
record_success-is_open b k now later =
    rw (get-put_self k (with_success (get k b) now) b) (with_success-open (get k b) now later)

-- What opens a breaker: at least ten calls in the window, a quarter of them failures.
abbrev pub Tripped : ℕ → BreakerState → Type 0
Tripped now s =
    (10 ≤ s.successes + s.failures)
    × (s.successes + s.failures ≤ 4 * s.failures)
    × (s.open_until ≡ now + 60000)

with_failure-opens :
    (o : Option BreakerState) (now later : ℕ)
    → is_open_at o later ≡ false
    → is_open_at (some (with_failure o now)) later ≡ true
    → Tripped now (with_failure o now) × (later < now + 60000)
unfolding with_failure
with_failure-opens none now later closed opened = ground arith
with_failure-opens (some s) now later closed opened = ground arith

-- A failure that opens a closed breaker is one of at least ten calls of the window, a quarter of them
-- failures, and it opens it for one minute.
pub record_failure-opens :
    (b : Breaker) (k : String) (now later : ℕ)
    → is_open b k later ≡ false
    → is_open (record_failure b k now) k later ≡ true
    → (s : BreakerState) × (get k (record_failure b k now) ≡ some s)
      × Tripped now s
      × (later < now + 60000)
unfolding is_open record_failure
record_failure-opens b k now later closed opened =
    let stored = get-put_self k (with_failure (get k b) now) b in
    let (tripped, soon) = with_failure-opens (get k b) now later closed (rw stored at opened) in
    (with_failure (get k b) now, stored, tripped, soon)

failure_closed_self :
    (b : Breaker) (k : String) (now later : ℕ)
    → now + 60000 ≤ later
    → is_open b k later ≡ false
    → is_open (record_failure b k now) k later ≡ false
failure_closed_self b k now later t closed =
    elim (Bool-cases (is_open (record_failure b k now) k later)) [
      | inl opened ↦
          let (s, stored, tripped, soon) = record_failure-opens b k now later closed opened in
          absurd (omega arith)
      | inr still ↦ still
    ]

success_closed :
    (b : Breaker) (j k : String) (now later : ℕ)
    → is_open b k later ≡ false
    → is_open (record_success b j now) k later ≡ false
success_closed b j k now later closed = elim (Bool-cases (str_eq j k)) [
  | inl same ↦
      subst (λ i. is_open (record_success b j now) i later ≡ false) ((eq_iff j k).0 same)
        (record_success-is_open b j now later
          ∙ subst (λ i. is_open b i later ≡ false) (sym ((eq_iff j k).0 same)) closed)
  | inr other ↦ (record-other b j k now later (λ e. cc ((eq_iff j k).1 e))).0 ∙ closed
]

failure_closed :
    (b : Breaker) (j k : String) (now later : ℕ)
    → now + 60000 ≤ later
    → is_open b k later ≡ false
    → is_open (record_failure b j now) k later ≡ false
failure_closed b j k now later t closed = elim (Bool-cases (str_eq j k)) [
  | inl same ↦
      subst (λ i. is_open (record_failure b j now) i later ≡ false) ((eq_iff j k).0 same)
        (failure_closed_self b j now later t
          (subst (λ i. is_open b i later ≡ false) (sym ((eq_iff j k).0 same)) closed))
  | inr other ↦ (record-other b j k now later (λ e. cc ((eq_iff j k).1 e))).1 ∙ closed
]

-- A run of failures and successes of any models, each with its time.
pub data Outcome : Type 0 where
  succeeds fails : String → ℕ → Outcome

pub replay : Breaker → List Outcome → Breaker
replay b [] = b
replay b (succeeds k now ∷ os) = replay (record_success b k now) os
replay b (fails k now ∷ os) = replay (record_failure b k now) os

abbrev pub time_of : Outcome → ℕ
time_of (succeeds k now) = now
time_of (fails k now) = now

-- A minute after the last of the calls every breaker is closed, if it was to be closed then before them.
pub replay-closes :
    (b : Breaker) (os : List Outcome) (k : String) (later : ℕ)
    → All (λ o. time_of o + 60000 ≤ later) os
    → is_open b k later ≡ false
    → is_open (replay b os) k later ≡ false
unfolding replay
replay-closes b [] k later h closed = closed
replay-closes b (succeeds j now ∷ os) k later (t, h) closed =
    replay-closes (record_success b j now) os k later h (success_closed b j k now later closed)
replay-closes b (fails j now ∷ os) k later (t, h) closed =
    replay-closes (record_failure b j now) os k later h (failure_closed b j k now later t closed)
