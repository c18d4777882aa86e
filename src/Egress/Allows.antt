-- ===== src/Egress/Allows.antt =====
-- What a pattern of an allowlist means, and that the test of a pattern decides it.
use mergecrew.Base.{
  ℕ, zero, suc, ◌-◌, true, false, ◌&&◌, List, [], ◌∷◌, ◌++◌, length, length-append, ◌≡◌, refl, ap,
  ◌∙◌, ◌↔◌, inl, inr, Any, here, there, some, Text, codes, same_text, same_text_iff, drop, take,
  drop-append, arith, Bool-cases, and-eq-true, leb, ==_iff, ◌==◌,
}
use mergecrew.Egress.{starts_with, ends_with, pattern_fits, is_private}
use mergecrew.Egress.Skill.{listed, is_host_allowed}

-- `*` allows every host, a pattern the host it names, and `*.d` the hosts that end in `.d`.
pub data Allows : Text → Text → Type 0 where
  star : {p h : Text} → p ≡ codes "*" → Allows p h
  exact : {p h : Text} → p ≡ h → Allows p h
  subdomain : {p h : Text} (sub d : Text) → p ≡ codes "*." ++ d → h ≡ sub ++ (46 ∷ d) → Allows p h

take-drop : (n : ℕ) (s : Text) → s ≡ take n s ++ drop n s
unfolding take drop
take-drop zero s = refl
take-drop (suc n) [] = refl
take-drop (suc n) (c ∷ s) = ap (λ t. c ∷ t) (take-drop n s)

starts_with-split : (p s : Text) → starts_with p s ≡ true → s ≡ p ++ drop (length p) s
unfolding starts_with drop
starts_with-split [] s h = refl
starts_with-split (c ∷ p) [] h = cc
starts_with-split (c ∷ p) (d ∷ s) h =
    let both = and-eq-true (c == d) (starts_with p s) h in
    cc ((==_iff c d).0 both.0, starts_with-split p s both.1)

starts_with-append : (p s : Text) → starts_with p (p ++ s) ≡ true
unfolding starts_with
starts_with-append [] s = refl
starts_with-append (c ∷ p) s = ground (arith, starts_with-append p s)

ends_with-split : (e s : Text) → ends_with e s ≡ true → (r : Text) × (s ≡ r ++ e)
unfolding ends_with
ends_with-split e s h =
    let n = length s - length e in
    let both = and-eq-true (leb (length e) (length s)) (same_text (drop n s) e) h in
    (take n s, take-drop n s ∙ ap (λ t. take n s ++ t) ((same_text_iff (drop n s) e).0 both.1))

ends_with-append : (e r : Text) → ends_with e (r ++ e) ≡ true
unfolding ends_with drop
ends_with-append e r =
    let n = length (r ++ e) - length e in
    let cut : drop n (r ++ e) ≡ e = drop-append r e n 0 (omega (arith, length-append r e)) in
    let same : same_text (drop n (r ++ e)) e ≡ true = (same_text_iff (drop n (r ++ e)) e).1 cut in
    ground (arith, length-append r e, same)

pattern_fits-Allows : (p h : Text) → pattern_fits p h ≡ true → Allows p h
unfolding pattern_fits
pattern_fits-Allows p h e = elim (Bool-cases (same_text p (codes "*"))) [
  | inl q ↦ star ((same_text_iff p (codes "*")).0 q)
  | inr q ↦ elim (Bool-cases (same_text p h)) [
    | inl r ↦ exact ((same_text_iff p h).0 r)
    | inr r ↦
        let both =
          and-eq-true (starts_with (codes "*.") p) (ends_with (46 ∷ drop 2 p) h) (rw (q, r) at e) in
        let (sub, s) = ends_with-split (46 ∷ drop 2 p) h both.1 in
        subdomain sub (drop 2 p) (starts_with-split (codes "*.") p both.0) s
  ]
]

subdomain-fits :
    (p h sub d : Text)
    → p ≡ codes "*." ++ d
    → h ≡ sub ++ (46 ∷ d)
    → (starts_with (codes "*.") p && ends_with (46 ∷ drop 2 p) h) ≡ true
unfolding drop
subdomain-fits p h sub d e f =
    rw (e, f) (ground (arith, starts_with-append (codes "*.") d, ends_with-append (46 ∷ d) sub))

Allows-pattern_fits : (p h : Text) → Allows p h → pattern_fits p h ≡ true
unfolding pattern_fits
Allows-pattern_fits p h (star e) = ground (arith, (same_text_iff p (codes "*")).1 e)
Allows-pattern_fits p h (exact e) = ground (arith, (same_text_iff p h).1 e)
Allows-pattern_fits p h (subdomain sub d e f) = ground (arith, subdomain-fits p h sub d e f)

pub pattern_fits_iff : (p h : Text) → (pattern_fits p h ≡ true) ↔ Allows p h
pattern_fits_iff p h = (pattern_fits-Allows p h, Allows-pattern_fits p h)

listed_sound : (h : Text) (ps : List Text) → listed h ps ≡ true → Any (λ p. Allows p h) ps
unfolding listed
listed_sound h [] e = cc
listed_sound h (p ∷ ps) e = elim (Bool-cases (pattern_fits p h)) [
  | inl q ↦ here (pattern_fits-Allows p h q)
  | inr q ↦ there (listed_sound h ps (rw q at e))
]

listed_complete : (h : Text) (ps : List Text) → Any (λ p. Allows p h) ps → listed h ps ≡ true
unfolding listed
listed_complete h [] a = elim a [ ]
listed_complete h (p ∷ ps) (here e) = ground (arith, Allows-pattern_fits p h e)
listed_complete h (p ∷ ps) (there a) = ground (arith, listed_complete h ps a)

-- A host is allowed by a list exactly when it is not private and some pattern of the list allows it.
pub is_host_allowed_iff :
    (host : Text) (patterns : List Text)
    → (is_host_allowed host (some patterns) ≡ true)
      ↔ ((is_private host ≡ false) × Any (λ p. Allows p host) patterns)
unfolding is_host_allowed
is_host_allowed_iff host [] = (λ e. ground arith, λ h. elim h.1 [ ])
is_host_allowed_iff host (p ∷ ps) = elim (Bool-cases (is_private host)) [
  | inl q ↦ (λ e. cc (rw q at e), λ h. cc (q, h.0))
  | inr q ↦ (
    λ e. (q, listed_sound host (p ∷ ps) (rw q at e)),
    λ h. rw q (listed_complete host (p ∷ ps) h.1),
  )
]
