-- ===== src/Policy/Glob/Decides.antt =====
-- The matcher of packages/agent-runtime/src/policy.ts decides what a glob means.
use Prim.Native.Char.{Char, code}
use Prim.Native.String.{String, [], ◌∷◌}
use mathlib.Core.List.{List, ◌∷◌ as ◌∷ᴸ◌}
use mergecrew.Base.{true, false, ◌≡◌, ◌↔◌, refl, subst, arith, Bool-cases, inl, inr, ◌==◌, ==_iff}
use mergecrew.Policy.Glob.{
  Atom, lit, any_char, star, glob_star, plain, after_star, after_stars, is_star, non_slash, dot,
  compile, minimatch,
}
use mergecrew.Policy.Glob.Fits.{
  Fits, done, a_lit, a_char, stop_star, more_star, stop_stars, more_stars, accepts_iff,
}
use mergecrew.Policy.Glob.Meaning.{
  IsStar, IsMark, IsSlash, IsInline, NoStar, AfterStars, at_end, with_slash, without_slash, Matches,
  both_end, same_char, one_char, star_ends, star_takes, stars_end, stars_take,
}

IsStar-iff : (c : Char) → (is_star c ≡ true) ↔ IsStar c
IsStar-iff c = ==_iff (code c) 42

non_slash_iff : (c : Char) → (non_slash c ≡ true) ↔ (¬ IsSlash c)
non_slash_iff c = ground (arith, ==_iff (code c) 47)

dot_iff : (c : Char) → (dot c ≡ true) ↔ IsInline c
dot_iff c =
    ground
      (arith, ==_iff (code c) 10, ==_iff (code c) 13, ==_iff (code c) 8232, ==_iff (code c) 8233)

-- The compiled star, whatever follows it.
compile-star : (g : String) → NoStar g → compile after_star g ≡ star ∷ᴸ compile plain g
unfolding compile
compile-star [] h = refl
compile-star (c ∷ g) h = elim (Bool-cases (is_star c)) [
  | inl e ↦ absurd (h ((IsStar-iff c).0 e))
  | inr e ↦ rw e refl
]

compile-stars :
    (g h : String) → AfterStars g h → compile after_stars g ≡ glob_star ∷ᴸ compile plain h
unfolding compile
compile-stars g h at_end = refl
compile-stars g h (with_slash {c} e) = rw ((==_iff (code c) 47).1 e) refl
compile-stars g h (without_slash {c} e) = elim (Bool-cases (code c == 47)) [
  | inl q ↦ absurd (e ((==_iff (code c) 47).0 q))
  | inr q ↦ elim (Bool-cases (is_star c)) [ inl r ↦ rw (q, r) refl | inr r ↦ rw (q, r) refl ]
]

compile-one :
    (a : Char) (g : String) → IsStar a → NoStar g → compile plain (a ∷ g) ≡ star ∷ᴸ compile plain g
unfolding compile
compile-one a g e h = rw ((IsStar-iff a).1 e) (compile-star g h)

compile-two :
    (a b : Char) (g h : String)
    → IsStar a
    → IsStar b
    → AfterStars g h
    → compile plain (a ∷ b ∷ g) ≡ glob_star ∷ᴸ compile plain h
unfolding compile
compile-two a b g h e d k = rw ((IsStar-iff a).1 e, (IsStar-iff b).1 d) (compile-stars g h k)

not_star : (a : Char) → ¬ IsStar a → is_star a ≡ false
not_star a h = elim (Bool-cases (is_star a)) [ inl e ↦ absurd (h ((IsStar-iff a).0 e)) | inr e ↦ e ]

not_mark : (a : Char) → ¬ IsMark a → (code a == 63) ≡ false
not_mark a h = elim (Bool-cases (code a == 63)) [
  | inl e ↦ absurd (h ((==_iff (code a) 63).0 e))
  | inr e ↦ e
]

compile-lit :
    (a : Char) (g : String)
    → ¬ IsStar a
    → ¬ IsMark a
    → compile plain (a ∷ g) ≡ lit a ∷ᴸ compile plain g
unfolding compile
compile-lit a g h k = rw (not_star a h, not_mark a k) refl

IsMark-plain : (a : Char) → IsMark a → ¬ IsStar a
IsMark-plain a e h = omega (arith, e, h)

compile-mark :
    (a : Char) (g : String) → IsMark a → compile plain (a ∷ g) ≡ any_char ∷ᴸ compile plain g
unfolding compile
compile-mark a g e = rw (not_star a (IsMark-plain a e), (==_iff (code a) 63).1 e) refl

after : (g : String) → (h : String) × AfterStars g h
after [] = ([], at_end)
after (c ∷ g) = elim (Bool-cases (code c == 47)) [
  | inl e ↦ (g, with_slash ((==_iff (code c) 47).0 e))
  | inr e ↦ (c ∷ g, without_slash (λ h. cc (e, (==_iff (code c) 47).1 h)))
]

Matches-Fits : {g s : String} → Matches g s → Fits (compile plain g) s
unfolding compile
Matches-Fits both_end = done
Matches-Fits (same_char {a} {c} {g} h k e m) =
    rw (compile-lit a g h k) (a_lit ((==_iff (code c) (code a)).1 e) (Matches-Fits m))
Matches-Fits (one_char {a} {c} {g} e h m) =
    rw (compile-mark a g e) (a_char ((non_slash_iff c).1 h) (Matches-Fits m))
Matches-Fits (star_ends {a} {g} e h m) = rw (compile-one a g e h) (stop_star (Matches-Fits m))
Matches-Fits (star_takes {a} {c} {g} {s} e h k m) =
    let rest = subst (λ re. Fits re s) (compile-one a g e h) (Matches-Fits m) in
    rw (compile-one a g e h) (more_star ((non_slash_iff c).1 k) rest)
Matches-Fits (stars_end {a} {b} {g} {h} e d k m) =
    rw (compile-two a b g h e d k) (stop_stars (Matches-Fits m))
Matches-Fits (stars_take {a} {b} {c} {g} {s} e d k m) =
    let (h, l) = after g in
    let rest = subst (λ re. Fits re s) (compile-two a b g h e d l) (Matches-Fits m) in
    rw (compile-two a b g h e d l) (more_stars ((dot_iff c).1 k) rest)

-- What fits the compiled glob matches the glob.
abbrev IsSound : String → Type 0
IsSound g = (s : String) → Fits (compile plain g) s → Matches g s

IsSound-end : IsSound []
unfolding compile
IsSound-end s done = both_end

Fits-lit :
    (a : Char) (g : String)
    → ¬ IsStar a
    → ¬ IsMark a
    → IsSound g
    → (s : String) → Fits (lit a ∷ᴸ compile plain g) s
    → Matches (a ∷ g) s
Fits-lit a g h k r s (a_lit {c = c} e f) = same_char h k ((==_iff (code c) (code a)).0 e) (r _ f)

Fits-mark :
    (a : Char) (g : String)
    → IsMark a
    → IsSound g
    → (s : String) → Fits (any_char ∷ᴸ compile plain g) s
    → Matches (a ∷ g) s
Fits-mark a g h r s (a_char {c} e f) = one_char h ((non_slash_iff c).0 e) (r _ f)

Fits-star :
    (a : Char) (g : String) (re : List Atom)
    → IsStar a
    → NoStar g
    → ((s : String) → Fits re s → Matches g s)
    → (s : String) → Fits (star ∷ᴸ re) s
    → Matches (a ∷ g) s
Fits-star a g re h k r s (stop_star f) = star_ends h k (r _ f)
Fits-star a g re h k r s (more_star {c} e f) =
    star_takes h k ((non_slash_iff c).0 e) (Fits-star a g re h k r _ f)

Fits-stars :
    (a b : Char) (g h : String) (re : List Atom)
    → IsStar a
    → IsStar b
    → AfterStars g h
    → ((s : String) → Fits re s → Matches h s)
    → (s : String) → Fits (glob_star ∷ᴸ re) s
    → Matches (a ∷ b ∷ g) s
Fits-stars a b g h re e d k r s (stop_stars f) = stars_end e d k (r _ f)
Fits-stars a b g h re e d k r s (more_stars {c} q f) =
    stars_take e d ((dot_iff c).0 q) (Fits-stars a b g h re e d k r _ f)

abbrev tail : String → String
tail [] = []
tail (c ∷ g) = g

after-IsSound : (g h : String) → AfterStars g h → IsSound g → IsSound (tail g) → IsSound h
after-IsSound g h at_end r t = r
after-IsSound g h (with_slash e) r t = t
after-IsSound g h (without_slash e) r t = r

star-IsSound :
    (a : Char) (g : String)
    → IsStar a
    → IsSound g
    → IsSound (tail g)
    → IsSound (tail (tail g))
    → IsSound (a ∷ g)
star-IsSound a [] e r t u s f =
    Fits-star a [] _ e tt r s (subst (λ re. Fits re s) (compile-one a [] e tt) f)
star-IsSound a (b ∷ g) e r t u s f = elim (Bool-cases (is_star b)) [
  | inl q ↦
      let d = (IsStar-iff b).0 q in
      let (h, k) = after g in
      Fits-stars a b g h _ e d k (after-IsSound g h k t u) s
        (subst (λ re. Fits re s) (compile-two a b g h e d k) f)
  | inr q ↦
      let n : ¬ IsStar b = λ d. cc (q, (IsStar-iff b).1 d) in
      Fits-star a (b ∷ g) _ e n r s (subst (λ re. Fits re s) (compile-one a (b ∷ g) e n) f)
]

char-IsSound : (a : Char) (g : String) → ¬ IsStar a → IsSound g → IsSound (a ∷ g)
char-IsSound a g n r s f = elim (Bool-cases (code a == 63)) [
  | inl q ↦
      let m = (==_iff (code a) 63).0 q in
      Fits-mark a g m r s (subst (λ re. Fits re s) (compile-mark a g m) f)
  | inr q ↦
      let m : ¬ IsMark a = λ h. cc (q, (==_iff (code a) 63).1 h) in
      Fits-lit a g n m r s (subst (λ re. Fits re s) (compile-lit a g n m) f)
]

-- Two stars look two characters ahead.
all-IsSound : (g : String) → IsSound g × IsSound (tail g) × IsSound (tail (tail g))
all-IsSound [] = (IsSound-end, IsSound-end, IsSound-end)
all-IsSound (a ∷ g) =
    let (r, t, u) = all-IsSound g in
    elim (Bool-cases (is_star a)) [
      | inl q ↦ (star-IsSound a g ((IsStar-iff a).0 q) r t u, r, t)
      | inr q ↦ (char-IsSound a g (λ d. cc (q, (IsStar-iff a).1 d)) r, r, t)
    ]

-- The matcher accepts a path exactly when the glob matches it, read off the glob's text: a star takes any characters but
-- slashes, two stars any characters of a line, and a slash right after them belongs to them; a question mark takes one
-- character that is no slash, and every other character itself.
pub minimatch_iff : (path glob : String) → (minimatch path glob ≡ true) ↔ Matches glob path
unfolding minimatch
minimatch_iff path glob = (
  λ e. (all-IsSound glob).0 path ((accepts_iff (compile plain glob) path).0 e),
  λ m. (accepts_iff (compile plain glob) path).1 (Matches-Fits m),
)
