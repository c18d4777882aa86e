-- ===== src/Policy/Glob/Fits.antt =====
-- What the atoms of a compiled glob take, and that the matcher decides it.
use Prim.Native.Char.{Char}
use Prim.Native.String.{String, [], ◌∷◌}
use mathlib.Core.List.{List, [] as []ᴸ, ◌∷◌ as ◌∷ᴸ◌}
use mergecrew.Base.{Bool, true, ◌≡◌, refl, ◌↔◌, arith, Bool-cases, inl, inr, and-eq-true}
use mergecrew.Policy.Glob.{
  Atom, lit, any_char, star, glob_star, non_slash, dot, is_char, run_of, accepts,
}

-- The characters that an atom takes: one of a class, or a run of them.
pub data Fits : List Atom → String → Type 0 where
  done : Fits []ᴸ []
  a_lit :
      {a c : Char} {re : List Atom} {s : String}
      → is_char a c ≡ true
      → Fits re s
      → Fits (lit a ∷ᴸ re) (c ∷ s)
  a_char :
      {c : Char} {re : List Atom} {s : String}
      → non_slash c ≡ true
      → Fits re s
      → Fits (any_char ∷ᴸ re) (c ∷ s)
  stop_star : {re : List Atom} {s : String} → Fits re s → Fits (star ∷ᴸ re) s
  more_star :
      {c : Char} {re : List Atom} {s : String}
      → non_slash c ≡ true
      → Fits (star ∷ᴸ re) s
      → Fits (star ∷ᴸ re) (c ∷ s)
  stop_stars : {re : List Atom} {s : String} → Fits re s → Fits (glob_star ∷ᴸ re) s
  more_stars :
      {c : Char} {re : List Atom} {s : String}
      → dot c ≡ true
      → Fits (glob_star ∷ᴸ re) s
      → Fits (glob_star ∷ᴸ re) (c ∷ s)

-- A run is read off the string, for either class.
run_of-cases :
    (p : Char → Bool) (k : String → Bool) {P : String → Type 0}
    → ((s : String) → k s ≡ true → P s)
    → ((c : Char) (s : String) → p c ≡ true → P s → P (c ∷ s))
    → (s : String) → run_of p k s ≡ true
    → P s
unfolding run_of
run_of-cases p k stop more [] h = stop [] h
run_of-cases p k stop more (c ∷ s) h = elim (Bool-cases (k (c ∷ s))) [
  | inl q ↦ stop (c ∷ s) q
  | inr q ↦
      let both = and-eq-true (p c) (run_of p k s) (rw q at h) in
      more c s both.0 (run_of-cases p k stop more s both.1)
]

run_of-stop : (p : Char → Bool) (k : String → Bool) (s : String) → k s ≡ true → run_of p k s ≡ true
unfolding run_of
run_of-stop p k [] h = h
run_of-stop p k (c ∷ s) h = ground arith

run_of-more :
    (p : Char → Bool) (k : String → Bool) (c : Char) (s : String)
    → p c ≡ true
    → run_of p k s ≡ true
    → run_of p k (c ∷ s) ≡ true
unfolding run_of
run_of-more p k c s h r = ground arith

accepts-Fits : (re : List Atom) (s : String) → accepts re s ≡ true → Fits re s
unfolding accepts
accepts-Fits []ᴸ [] h = done
accepts-Fits []ᴸ (c ∷ s) h = cc
accepts-Fits (lit a ∷ᴸ re) [] h = cc
accepts-Fits (lit a ∷ᴸ re) (c ∷ s) h =
    let both = and-eq-true (is_char a c) (accepts re s) h in a_lit both.0 (accepts-Fits re s both.1)
accepts-Fits (any_char ∷ᴸ re) [] h = cc
accepts-Fits (any_char ∷ᴸ re) (c ∷ s) h =
    let both = and-eq-true (non_slash c) (accepts re s) h in
    a_char both.0 (accepts-Fits re s both.1)
accepts-Fits (star ∷ᴸ re) s h =
    run_of-cases non_slash (accepts re) (λ t e. stop_star (accepts-Fits re t e))
      (λ c t e f. more_star e f) s h
accepts-Fits (glob_star ∷ᴸ re) s h =
    run_of-cases dot (accepts re) (λ t e. stop_stars (accepts-Fits re t e))
      (λ c t e f. more_stars e f) s h

Fits-accepts : {re : List Atom} {s : String} → Fits re s → accepts re s ≡ true
unfolding accepts
Fits-accepts done = refl
Fits-accepts (a_lit e f) = ground (arith, Fits-accepts f)
Fits-accepts (a_char e f) = ground (arith, Fits-accepts f)
Fits-accepts (stop_star {re} {s} f) = run_of-stop non_slash (accepts re) s (Fits-accepts f)
Fits-accepts (more_star {c} {re} {s} e f) =
    run_of-more non_slash (accepts re) c s e (Fits-accepts f)
Fits-accepts (stop_stars {re} {s} f) = run_of-stop dot (accepts re) s (Fits-accepts f)
Fits-accepts (more_stars {c} {re} {s} e f) = run_of-more dot (accepts re) c s e (Fits-accepts f)

pub accepts_iff : (re : List Atom) (s : String) → (accepts re s ≡ true) ↔ Fits re s
accepts_iff re s = (accepts-Fits re s, λ f. Fits-accepts f)
