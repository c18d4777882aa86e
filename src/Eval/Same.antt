-- ===== src/Eval/Same.antt =====
-- `compareSnapshot` of packages/eval-fixtures/src/compare.ts on a diff and itself.
use mergecrew.Base.{
  is_empty, ◌*◌, ◌≤◌, List, [], ◌∷◌, true, false, ◌≡◌, refl, subst, All, All-map, inl, inr,
  Bool-cases, length, Text, same_text, same_text_iff, same_text_refl, arith, ltb→lt,
}
use native.Mathlib.Nat.{mul_comm, le_trans, mul-le-mul_left, mul-le-mul_right}
use mergecrew.Eval.{FileDiff, parse_diff}
use mergecrew.Eval.Compare.{
  FixtureTolerances, Fraction, CompareOptions, includes, set_of, normalized, hits, overlap_of,
  overlap, is_less, added_in, paths_of, compare_snapshot,
}
use mergecrew.Eval.Accepts.{threshold_of, required_of, compare_snapshot-pass_iff}

includes-own : (xs : List Text) → All (λ x. includes xs x ≡ true) xs
includes-own [] = tt
includes-own (x ∷ xs) =
    (ground (arith, same_text_refl x), All-map (λ y h. ground (arith, h)) xs (includes-own xs))

includes-set_of : (xs : List Text) (x : Text) → includes xs x ≡ true → includes (set_of xs) x ≡ true
unfolding set_of
includes-set_of [] x h = h
includes-set_of (y ∷ xs) x h = elim (Bool-cases (same_text y x)) [
  | inl q ↦
      let same = (same_text_iff y x).0 q in
      elim (Bool-cases (includes (set_of xs) y)) [
        | inl r ↦ rw r (subst (λ z. includes (set_of xs) z ≡ true) same r)
        | inr r ↦ rw (r, q) refl
      ]
  | inr q ↦
      let later = includes-set_of xs x (ground arith) in
      elim (Bool-cases (includes (set_of xs) y)) [ inl r ↦ rw r later | inr r ↦ rw (r, q) later ]
]

length-set_of : (xs : List Text) → length (set_of xs) ≤ length xs
unfolding set_of
length-set_of [] = omega arith
length-set_of (x ∷ xs) = ground (arith, length-set_of xs)

hits-length : (s xs : List Text) → All (λ x. includes s x ≡ true) xs → hits s xs ≡ length xs
hits-length s [] h = refl
hits-length s (x ∷ xs) (q, h) = ground (arith, hits-length s xs h)

-- A diff meets at least all of its own lines, counted once.
abbrev pub IsWhole : Fraction → Type 0
IsWhole f = f.den ≤ f.num

overlap_of-IsWhole : (s xs : List Text) → length s ≤ hits s xs → IsWhole (overlap_of xs s)
overlap_of-IsWhole [] xs h = omega arith
overlap_of-IsWhole (x ∷ s) xs h = h

overlap-IsWhole : (t : FixtureTolerances) (xs : List Text) → IsWhole (overlap xs xs t)
unfolding overlap
overlap-IsWhole t xs = elim (Bool-cases (is_empty xs)) [
  | inl q ↦ rw q (omega arith)
  | inr q ↦
      let lines = normalized t xs in
      let own = All-map (includes-set_of lines) lines (includes-own lines) in
      let met : length (set_of lines) ≤ hits (set_of lines) lines =
        omega (arith, length-set_of lines, hits-length (set_of lines) lines own) in
      rw q (overlap_of-IsWhole (set_of lines) lines met)
]

IsWhole-reaches : (o t : Fraction) → IsWhole o → t.num ≤ t.den → is_less o t ≡ false
IsWhole-reaches o t h b =
    let low = le_trans (mul-le-mul_right o.den b) (mul-le-mul_left t.den h) in
    let same = mul_comm t.den o.num in
    elim (Bool-cases (is_less o t)) [
      | inl q ↦ absurd (omega (arith, low, same, ltb→lt (o.num * t.den) (t.num * o.den) q))
      | inr q ↦ q
    ]

-- The files that are asked for are those of the diff, and the threshold is one at most.
abbrev pub IsFor : CompareOptions → List FileDiff → Type 0
IsFor options files =
    All (λ p. includes (paths_of files) p ≡ true) (required_of options files)
    × ((threshold_of options).num ≤ (threshold_of options).den)

-- A diff passes against itself, if the files that are asked for are its own and the threshold is one at most.
pub compare_snapshot-same :
    (diff : Text) (options : CompareOptions)
    → IsFor options (parse_diff diff)
    → (compare_snapshot diff diff options).pass ≡ true
compare_snapshot-same diff options (asked, b) =
    let files = parse_diff diff in
    let own = includes-own (paths_of files) in
    let met =
      All-map
        (λ p q. (
          q,
          IsWhole-reaches _ (threshold_of options)
              (overlap-IsWhole options.tolerances (added_in files p)) b,
        ))
        (paths_of files) own in
    (compare_snapshot-pass_iff diff diff options).1 (asked, met, own)
