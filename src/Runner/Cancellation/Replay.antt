-- ===== src/Runner/Cancellation/Replay.antt =====
-- Which controllers a cancellation reaches.
use mergecrew.Base.{
  ℕ, String, Option, none, some, List, [], ◌∷◌, ◌++◌, Bool, true, false, not, ◌&&◌, ◌||◌, ◌==◌,
  ==_iff, ◌≡◌, ◌↔◌, refl, sym, ap, ◌∙◌, subst, inl, inr, arith, str_eq, eq_iff, if◌then◌else◌, any,
  keep, Bool-cases, set_entry, lookup_in, lookup-set_entry,
}
use mergecrew.Runner.Cancellation.{
  InFlight, Coordinator, run_key, set_found, set_of, add_to, delete_from, register, store_set,
  unregister_found, unregister, abort_all, cancel_run,
}

-- The operations of the steps of a runner and of the users.
pub data Operation : Type 0 where
  registered unregistered : String → ℕ → Operation
  cancelled : String → Operation

abbrev pub run_operation : Operation → Coordinator → Coordinator
run_operation (registered run c) k = register run c k
run_operation (unregistered run c) k = unregister run c k
run_operation (cancelled run) k = (cancel_run run k).1

-- The latest operation stands first.
abbrev pub replay : List Operation → Coordinator → Coordinator
replay [] k = k
replay (x ∷ xs) k = run_operation x (replay xs k)

abbrev pub fresh : Coordinator
fresh = record { inflight = []; aborted = [] }

abbrev concerns : String → ℕ → String → ℕ → Bool
concerns run c r d = str_eq r run && c == d

-- The controller's last registration for the run was not taken back.
abbrev pub is_registered : String → ℕ → List Operation → Bool
is_registered run c [] = false
is_registered run c (registered r d ∷ xs) = concerns run c r d || is_registered run c xs
is_registered run c (unregistered r d ∷ xs) = not (concerns run c r d) && is_registered run c xs
is_registered run c (cancelled r ∷ xs) = is_registered run c xs

abbrev pub has_controller : ℕ → List ℕ → Bool
has_controller c set = any (λ d. d == c) set

has-append :
    (c d : ℕ) (xs : List ℕ) → has_controller c (xs ++ (d ∷ [])) ≡ (c == d || has_controller c xs)
has-append c d [] = ground (arith)
has-append c d (x ∷ xs) = ground (arith, has-append c d xs)

has-add_to :
    (c d : ℕ) (xs : List ℕ) → has_controller c (add_to d xs) ≡ (c == d || has_controller c xs)
has-add_to c d xs = elim (Bool-cases (has_controller d xs)) [
  | inr q ↦ rw q (has-append c d xs)
  | inl q ↦ elim (Bool-cases (c == d)) [
    | inr e ↦ rw (q, e) refl
    | inl e ↦ rw (q, e) (subst (λ x. has_controller x xs ≡ true) (sym ((==_iff c d).0 e)) q)
  ]
]

has-delete_from :
    (c d : ℕ) (xs : List ℕ)
    → has_controller c (delete_from d xs) ≡ (not (c == d) && has_controller c xs)
has-delete_from c d [] = ground arith
has-delete_from c d (x ∷ xs) = ground (arith, has-delete_from c d xs)

unlike : (x y k : String) → str_eq x y ≡ false → str_eq x k ≡ true → str_eq y k ≡ false
unlike x y k q h = elim (Bool-cases (str_eq y k)) [
  | inl e ↦ cc (q, (eq_iff x y).1 ((eq_iff x k).0 h ∙ sym ((eq_iff y k).0 e)))
  | inr e ↦ e
]

-- The sets after a write of one run's.
set_of-set_entry :
    (r run : String) (set : List ℕ) (m : InFlight)
    → set_of r (set_entry run_key (run, set) m) ≡ (if str_eq run r then set else set_of r m)
set_of-set_entry r run set m = elim (Bool-cases (str_eq run r)) [
  | inl q ↦ rw (lookup-set_entry run_key r (run, set) m, q) refl
  | inr q ↦ rw (lookup-set_entry run_key r (run, set) m, q) refl
]

set_of-taken :
    (r run : String) (m : InFlight)
    → set_of r (keep (λ e. not (str_eq e.0 run)) m) ≡ (if str_eq run r then [] else set_of r m)
set_of-taken r run [] = ground arith
set_of-taken r run (e ∷ m) = elim (Bool-cases (str_eq e.0 run)) [
  | inl q ↦
      let same : e.0 ≡ run = (eq_iff _ _).0 q in
      elim (Bool-cases (str_eq run r)) [
        | inl h ↦ rw (q, set_of-taken r run m, h) refl
        | inr h ↦
            let other : str_eq e.0 r ≡ false = rw same h in
            rw (q, set_of-taken r run m, h, other) refl
      ]
  | inr q ↦ elim (Bool-cases (str_eq e.0 r)) [
    | inl h ↦ let apart : str_eq run r ≡ false = unlike e.0 run r q h in rw (q, h, apart) refl
    | inr h ↦ rw (q, h) (set_of-taken r run m)
  ]
]

set_of-store_set :
    (r run : String) (set : List ℕ) (m : InFlight)
    → set_of r (store_set run set m) ≡ (if str_eq run r then set else set_of r m)
set_of-store_set r run [] m = set_of-taken r run m
set_of-store_set r run (c ∷ cs) m = set_of-set_entry r run (c ∷ cs) m

has-register :
    (r run : String) (c d : ℕ) (k : Coordinator)
    → has_controller c (set_of r (register run d k).inflight)
      ≡ (concerns r c run d || has_controller c (set_of r k.inflight))
unfolding register
has-register r run c d k =
    rw (set_of-set_entry r run (add_to d (set_of run k.inflight)) k.inflight)
      (elim (Bool-cases (str_eq run r)) [
        | inl q ↦ rw q (rw ((eq_iff run r).0 q) (has-add_to c d (set_of r k.inflight)))
        | inr q ↦ rw q refl
      ])

has-unregister_found :
    (r run : String) (c d : ℕ) (o : Option (String × List ℕ)) (m : InFlight)
    → lookup_in run_key run m ≡ o
    → has_controller c (set_of r (unregister_found run d o m))
      ≡ (not (concerns r c run d) && has_controller c (set_of r m))
has-unregister_found r run c d none m e = elim (Bool-cases (str_eq run r)) [
  | inl q ↦
      let gone : set_of r m ≡ [] =
        ap set_found (subst (λ x. lookup_in run_key x m ≡ none) ((eq_iff run r).0 q) e) in
      rw (q, gone) (ground arith)
  | inr q ↦ rw q refl
]
has-unregister_found r run c d (some x) m e =
    rw (set_of-store_set r run (delete_from d x.1) m) (elim (Bool-cases (str_eq run r)) [
      | inl q ↦
          let there : set_of r m ≡ x.1 =
            ap set_found (subst (λ y. lookup_in run_key y m ≡ some x) ((eq_iff run r).0 q) e) in
          rw (q, there) (has-delete_from c d x.1)
      | inr q ↦ rw q refl
    ])

has-unregister :
    (r run : String) (c d : ℕ) (k : Coordinator)
    → has_controller c (set_of r (unregister run d k).inflight)
      ≡ (not (concerns r c run d) && has_controller c (set_of r k.inflight))
unfolding unregister
has-unregister r run c d k =
    has-unregister_found r run c d (lookup_in run_key run k.inflight) k.inflight refl

-- After any operations a run's set has exactly the controllers whose last registration for the run was not taken back.
pub has-replay :
    (run : String) (c : ℕ) (xs : List Operation)
    → has_controller c (set_of run (replay xs fresh).inflight) ≡ is_registered run c xs
unfolding cancel_run
has-replay run c [] = refl
has-replay run c (registered r d ∷ xs) =
    rw (has-register run r c d (replay xs fresh), has-replay run c xs) refl
has-replay run c (unregistered r d ∷ xs) =
    rw (has-unregister run r c d (replay xs fresh), has-replay run c xs) refl
has-replay run c (cancelled r ∷ xs) = has-replay run c xs

swapped : (a b b' d : Bool) → b ≡ b' → (a || (b || d)) ≡ ((b' || a) || d)
swapped a b b' d e = ground (arith, e)

has-abort_all :
    (c : ℕ) (set aborted : List ℕ)
    → has_controller c (abort_all set aborted) ≡ (has_controller c set || has_controller c aborted)
has-abort_all c [] aborted = refl
has-abort_all c (d ∷ set) aborted =
    rw (has-abort_all c set (add_to d aborted), has-add_to c d aborted)
      (swapped (has_controller c set) (c == d) (d == c) (has_controller c aborted) (ground arith))

-- A cancellation aborts exactly the controllers that are registered for the run, beside those that were aborted before, and
-- leaves every registration.
pub cancel_run_iff :
    (run : String) (c : ℕ) (xs : List Operation)
    → let k = replay xs fresh in
      let k' = (cancel_run run k).1 in
      ((has_controller c k'.aborted ≡ true)
        ↔ ((is_registered run c xs || has_controller c k.aborted) ≡ true))
      × (k'.inflight ≡ k.inflight)
unfolding cancel_run
cancel_run_iff run c xs =
    let k = replay xs fresh in
    let reached = has-abort_all c (set_of run k.inflight) k.aborted in
    (rw (reached, has-replay run c xs) (λ h. h, λ h. h), refl)
