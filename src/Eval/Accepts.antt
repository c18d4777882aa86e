-- ===== src/Eval/Accepts.antt =====
-- When `compareSnapshot` of packages/eval-fixtures/src/compare.ts passes.
use mergecrew.Base.{
  is_empty, List, [], ◌∷◌, ◌++◌, true, false, ◌≡◌, ◌↔◌, refl, All, inl, inr, Bool-cases, map, any,
  get_or_else, Text, sym, ◌∙◌, ap,
}
use mergecrew.Eval.{FileDiff, parse_diff}
use mergecrew.Eval.Compare.{
  FixtureTolerances, Fraction, CompareOptions, missing_required_file, Comparison, includes, half,
  overlap, is_less, is_missing, added_in, compare_file, compare_all, paths_of, unlisted,
  compare_parsed, compare_snapshot,
}

abbrev pub threshold_of : CompareOptions → Fraction
threshold_of options = get_or_else options.overlap_threshold half

abbrev pub required_of : CompareOptions → List FileDiff → List Text
required_of options expected = get_or_else options.required_files (paths_of expected)

is_empty-eq {ℓ} : {A : Type ℓ} (xs : List A) → is_empty xs ≡ true → xs ≡ []
is_empty-eq [] h = refl
is_empty-eq (x ∷ xs) h = cc

append-nil {ℓ} : {A : Type ℓ} (xs ys : List A) → (xs ++ ys) ≡ [] → (xs ≡ []) × (ys ≡ [])
append-nil [] ys h = (refl, h)
append-nil (x ∷ xs) ys h = cc

snoc-nil {ℓ} : {A : Type ℓ} (xs : List A) (x : A) → ¬ ((xs ++ (x ∷ [])) ≡ [])
snoc-nil [] x h = cc
snoc-nil (y ∷ xs) x h = cc

cons-nil {ℓ} : {A : Type ℓ} (x : A) (xs : List A) → ¬ ((x ∷ xs) ≡ [])
cons-nil x xs h = cc

map-nil {ℓ} : {A B : Type ℓ} (f : A → B) (xs : List A) → map f xs ≡ [] → xs ≡ []
map-nil f [] h = refl
map-nil f (x ∷ xs) h = cc

unlisted-nil :
    (listed paths : List Text)
    → (unlisted listed paths ≡ []) ↔ All (λ p. includes listed p ≡ true) paths
unlisted-nil listed paths = (sound paths, complete paths)
  where
    sound : (ps : List Text) → unlisted listed ps ≡ [] → All (λ p. includes listed p ≡ true) ps
    sound [] h = tt
    sound (p ∷ ps) h = elim (Bool-cases (includes listed p)) [
      | inl q ↦ (q, sound ps (rw q at h))
      | inr q ↦ absurd (cons-nil p _ (rw q at h))
    ]

    complete : (ps : List Text) → All (λ p. includes listed p ≡ true) ps → unlisted listed ps ≡ []
    complete [] h = refl
    complete (p ∷ ps) (q, h) = rw q (complete ps h)

clash : ¬ (true ≡ false)
clash h = cc

module _ (t : FixtureTolerances) (threshold : Fraction) (actual expected : List FileDiff) where
  -- The agent's diff touches the file, and adds enough of the lines.
  abbrev pub Meets : Text → Type 0
  Meets path =
      (includes (paths_of actual) path ≡ true)
      × (is_less (overlap (added_in actual path) (added_in expected path) t) threshold ≡ false)

  compare_file-nil :
      (path : Text) (k : Comparison)
      → ((compare_file t threshold actual expected path k).mismatches ≡ [])
        ↔ ((k.mismatches ≡ []) × Meets path)
  unfolding compare_file
  compare_file-nil path k = elim (Bool-cases (includes (paths_of actual) path)) [
    | inl q ↦
        elim (Bool-cases
          (is_less (overlap (added_in actual path) (added_in expected path) t) threshold)) [
            | inl r ↦ rw (q, r) (λ h. absurd (snoc-nil _ _ h), λ h. absurd (clash h.1.1))
            | inr r ↦ rw (q, r) (λ h. (h, (refl, refl)), λ h. h.0)
          ]
    | inr q ↦ elim (Bool-cases (any (is_missing path) k.mismatches)) [
      | inl r ↦
          rw (q, r)
            (
              λ h. absurd (clash (sym r ∙ ap (any (is_missing path)) h)),
              λ h. absurd (clash (sym h.1.0)),
            )
      | inr r ↦ rw (q, r) (λ h. absurd (snoc-nil _ _ h), λ h. absurd (clash (sym h.1.0)))
    ]
  ]

  compare_all-nil :
      (paths : List Text) (k : Comparison)
      → ((compare_all t threshold actual expected paths k).mismatches ≡ [])
        ↔ ((k.mismatches ≡ []) × All Meets paths)
  unfolding compare_all
  compare_all-nil [] k = (λ h. (h, tt), λ h. h.0)
  compare_all-nil (p ∷ paths) k =
      let first = compare_file-nil p k in
      let later = compare_all-nil paths (compare_file t threshold actual expected p k) in
      (
        λ h. let (e, ms) = later.0 h in let (f, m) = first.0 e in (f, (m, ms)),
        λ h. later.1 (first.1 (h.0, h.1.0), h.1.1),
      )

-- What the snapshots ask of an agent's diff.
abbrev pub IsAccepted : CompareOptions → List FileDiff → List FileDiff → Type 0
IsAccepted options actual expected =
    All (λ p. includes (paths_of actual) p ≡ true) (required_of options expected)
    × All (Meets options.tolerances (threshold_of options) actual expected) (paths_of expected)
    × All (λ p. includes (paths_of expected) p ≡ true) (paths_of actual)

-- A diff passes exactly when it touches each required file, the same files as the expected diff, and in each of
-- them its overlap with the expected lines is not below the threshold.
pub compare_snapshot-pass_iff :
    (agent_diff expected_diff : Text) (options : CompareOptions)
    → ((compare_snapshot agent_diff expected_diff options).pass ≡ true)
      ↔ IsAccepted options (parse_diff agent_diff) (parse_diff expected_diff)
unfolding compare_snapshot compare_parsed
compare_snapshot-pass_iff agent_diff expected_diff options =
    let actual = parse_diff agent_diff in
    let expected = parse_diff expected_diff in
    let start : Comparison = record {
      mismatches =
          map missing_required_file (unlisted (paths_of actual) (required_of options expected));
      overlaps = [];
    } in
    let files =
      compare_all-nil options.tolerances (threshold_of options) actual expected (paths_of expected)
        start in
    let asked = unlisted-nil (paths_of actual) (required_of options expected) in
    let extra = unlisted-nil (paths_of expected) (paths_of actual) in
    (
      λ h.
          let (looped, rest) = append-nil _ _ (is_empty-eq _ h) in
          let (begun, met) = files.0 looped in
          (asked.0 (map-nil _ _ begun), met, extra.0 (map-nil _ _ rest)),
      λ h. rw (files.1 (rw (asked.1 h.0) refl, h.1), extra.1 h.2) refl,
    )
