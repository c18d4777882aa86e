-- ===== src/Changes/Radius.antt =====
-- packages/domain/src/blast-radius.ts and risk-score.ts.
use mergecrew.Base.{
  ℕ, ◌+◌, ◌*◌, ◌≤◌, String, none, List, [], ◌∷◌, ◌++◌, Bool, true, false, not, ◌&&◌, ◌≡◌, refl, inl,
  inr, ◌↔◌, arith, if◌then◌else◌, ltb, length, find, All, any, Option-cases, length-append,
  find_total, any_sound,
}
use mergecrew.Changes.{ChangesetFile, DeniedHit, lines_from, sum_lines, hits, path_hits, first_hit}

pub record BlastRadiusLimits : Type 0 where
  pub max_files_changed : ℕ
  pub max_lines_changed : ℕ
  pub denied_paths : List String

pub data BlastRadiusResult : Type 0 where
  within : ℕ → ℕ → BlastRadiusResult  -- files, lines
  -- files, lines, the two limits, which of them is passed, the denied files
  blocked : ℕ → ℕ → ℕ → ℕ → Bool → Bool → List DeniedHit → BlastRadiusResult

pub record RiskScore : Type 0 where
  pub score : ℕ
  pub files_changed : ℕ
  pub lines_changed : ℕ
  pub sensitive_hits : List DeniedHit

abbrev is_empty : List DeniedHit → Bool
is_empty [] = true
is_empty (h ∷ hs) = false

abbrev report : BlastRadiusLimits → ℕ → ℕ → Bool → Bool → List DeniedHit → BlastRadiusResult
report limits files lines over_files over_lines denied =
    if not over_files && not over_lines && is_empty denied
    then within files lines
    else blocked files lines limits.max_files_changed limits.max_lines_changed over_files over_lines
        denied

module _ (matches : String → String → Bool) where
  unfoldable pub check_blast_radius : List ChangesetFile → BlastRadiusLimits → BlastRadiusResult
  unfolding path_hits
  check_blast_radius files limits =
      let n = length files in
      let lines = sum_lines files in
      report limits n lines (ltb limits.max_files_changed n) (ltb limits.max_lines_changed lines)
        (path_hits matches limits.denied_paths files)

  -- `score` is in tenths: 10 for a file, 1 for a line, 100 for a sensitive hit.
  unfoldable pub compute_risk_score : List ChangesetFile → List String → RiskScore
  unfolding path_hits
  compute_risk_score files sensitive =
      let n = length files in
      let lines = sum_lines files in
      let found = path_hits matches sensitive files in
      record {
        score = 10 * n + lines + 100 * length found;
        files_changed = n;
        lines_changed = lines;
        sensitive_hits = found;
      }

  -- No glob of the list matches the file's path.
  abbrev pub IsClear : List String → ChangesetFile → Type 0
  IsClear globs f = All (λ g. matches g f.path ≡ false) globs

  find-none :
      (p : String) (globs : List String)
      → find (λ g. matches g p) globs ≡ none
      → All (λ g. matches g p ≡ false) globs
  find-none p [] e = tt
  find-none p (g ∷ globs) e = (ground arith, find-none p globs (ground arith))

  hits-IsClear :
      (globs : List String) (fs : List ChangesetFile)
      → hits matches globs fs ≡ []
      → All (IsClear globs) fs
  unfolding hits
  hits-IsClear globs [] e = tt
  hits-IsClear globs (f ∷ fs) e = elim (Option-cases (find (λ g. matches g f.path) globs)) [
    | inl q ↦ (find-none f.path globs q, hits-IsClear globs fs (rw q at e))
    | inr (g, q) ↦ cc (rw q at e)
  ]

  All-nil : (fs : List ChangesetFile) → All (IsClear []) fs
  All-nil [] = tt
  All-nil (f ∷ fs) = (tt, All-nil fs)

  path_hits-IsClear :
      (globs : List String) (fs : List ChangesetFile)
      → path_hits matches globs fs ≡ []
      → All (IsClear globs) fs
  unfolding path_hits
  path_hits-IsClear [] fs e = All-nil fs
  path_hits-IsClear (g ∷ globs) fs e = hits-IsClear (g ∷ globs) fs e

  clear-find :
      (p : String) (globs : List String)
      → All (λ g. matches g p ≡ false) globs
      → find (λ g. matches g p) globs ≡ none
  clear-find p [] h = refl
  clear-find p (g ∷ globs) (e, h) = rw e (clear-find p globs h)

  clear-hits :
      (globs : List String) (fs : List ChangesetFile)
      → All (IsClear globs) fs
      → hits matches globs fs ≡ []
  unfolding hits
  clear-hits globs [] h = refl
  clear-hits globs (f ∷ fs) (c, h) = rw (clear-find f.path globs c) (clear-hits globs fs h)

  clear-path_hits :
      (globs : List String) (fs : List ChangesetFile)
      → All (IsClear globs) fs
      → path_hits matches globs fs ≡ []
  unfolding path_hits
  clear-path_hits [] fs h = refl
  clear-path_hits (g ∷ globs) fs h = clear-hits (g ∷ globs) fs h

-- The lines that the files change, as a plain sum.
abbrev pub total_lines : List ChangesetFile → ℕ
total_lines [] = 0
total_lines (f ∷ fs) = f.additions + f.deletions + total_lines fs

lines_from-total : (acc : ℕ) (fs : List ChangesetFile) → lines_from acc fs ≡ acc + total_lines fs
unfolding lines_from
lines_from-total acc [] = omega arith
lines_from-total acc (f ∷ fs) = omega (arith, lines_from-total (acc + f.additions + f.deletions) fs)

-- Within the limits: as many files and lines as they allow, and no file on a denied path.
pub record IsWithin (matches : String → String → Bool) (limits : BlastRadiusLimits)
    (files : List ChangesetFile) : Type 0 where
  pub few_files : length files ≤ limits.max_files_changed
  pub few_lines : total_lines files ≤ limits.max_lines_changed
  pub allowed : All (IsClear matches limits.denied_paths) files

empty-eq-nil : (hs : List DeniedHit) → is_empty hs ≡ true → hs ≡ []
empty-eq-nil [] e = refl
empty-eq-nil (h ∷ hs) e = cc

report-within :
    (l : BlastRadiusLimits) (n lines : ℕ) (a b : Bool) (hs : List DeniedHit) {r m : ℕ}
    → report l n lines a b hs ≡ within r m
    → (a ≡ false) × (b ≡ false) × (hs ≡ [])
report-within l n lines a b hs e = ground (arith, empty-eq-nil hs)

-- A changeset passes exactly when it is within the limits, and then with its true counts.
pub check_blast_radius_iff :
    (matches : String → String → Bool) (files : List ChangesetFile) (limits : BlastRadiusLimits)
    → (check_blast_radius matches files limits ≡ within (length files) (total_lines files))
      ↔ IsWithin matches limits files
unfolding check_blast_radius
check_blast_radius_iff matches files limits = (
  λ e.
      let (few, short, clear) =
        report-within limits _ _ _ _ (path_hits matches limits.denied_paths files) e in
      record {
        few_files = ground arith;
        few_lines = ground (arith, lines_from-total 0 files);
        allowed = path_hits-IsClear matches limits.denied_paths files clear;
      },
  λ v.
      rw (clear-path_hits matches limits.denied_paths files v.allowed)
        (ground (arith, v.few_files, v.few_lines, lines_from-total 0 files)),
)

first_hit-length :
    (matches : String → String → Bool) (globs : List String) (f : ChangesetFile)
    → any (λ g. matches g f.path) globs ≡ true
    → length (first_hit matches f.path (find (λ g. matches g f.path) globs)) ≡ 1
first_hit-length matches globs f h =
    let (g, e) =
      find_total (λ g. matches g f.path) globs (any_sound (λ g. matches g f.path) globs h) in
    rw e refl

hits-length :
    (matches : String → String → Bool) (globs : List String) (fs : List ChangesetFile)
    (f : ChangesetFile)
    → any (λ g. matches g f.path) globs ≡ true
    → length (hits matches globs (fs ++ f ∷ [])) ≡ length (hits matches globs fs) + 1
unfolding hits
hits-length matches globs [] f h =
    rw (length-append (first_hit matches f.path (find (λ g. matches g f.path) globs)) [])
      (ground (arith, first_hit-length matches globs f h))
hits-length matches globs (x ∷ fs) f h = ground (
  arith,
  length-append (first_hit matches x.path (find (λ g. matches g x.path) globs))
      (hits matches globs (fs ++ f ∷ [])),
  length-append (first_hit matches x.path (find (λ g. matches g x.path) globs))
      (hits matches globs fs),
  hits-length matches globs fs f h,
)

total_lines-append :
    (fs gs : List ChangesetFile) → total_lines (fs ++ gs) ≡ total_lines fs + total_lines gs
total_lines-append [] gs = omega arith
total_lines-append (f ∷ fs) gs = omega (arith, total_lines-append fs gs)

-- A sensitive file that is added to a changeset raises its score by a file, its lines and a hit.
pub compute_risk_score-sensitive :
    (matches : String → String → Bool) (files : List ChangesetFile) (f : ChangesetFile) (g : String)
    (globs : List String)
    → any (λ x. matches x f.path) (g ∷ globs) ≡ true
    → (compute_risk_score matches (files ++ f ∷ []) (g ∷ globs)).score
      ≡ (compute_risk_score matches files (g ∷ globs)).score
        + 10
        + (f.additions + f.deletions)
        + 100
unfolding compute_risk_score
compute_risk_score-sensitive matches files f g globs h = ground (
  arith,
  length-append files (f ∷ []),
  lines_from-total 0 (files ++ f ∷ []),
  lines_from-total 0 files,
  total_lines-append files (f ∷ []),
  hits-length matches (g ∷ globs) files f h,
)
