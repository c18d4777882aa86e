-- ===== src/Changes/Promote.antt =====
-- packages/domain/src/auto-promote.ts: whether a changeset is merged without review. `matches_any globs path` is
-- picomatch's answer for a list of globs.
use mergecrew.Base.{
  ℕ, ◌≤◌, ◌<◌, String, Option, none, some, List, [], ◌∷◌, Bool, true, false, ◌≡◌, refl, ◌↔◌, arith,
  if◌then◌else◌, ltb, length, All, or_else, or_else-none, Bool-cases, inl, inr,
}
use mergecrew.Changes.{ChangesetFile, sum_lines}
use mergecrew.Changes.Versions.{is_patch_bump}

pub record AutoPromoteRule : Type 0 where
  pub name : String
  pub path_patterns : List String
  pub max_files_changed : Option ℕ
  pub max_lines_changed : Option ℕ
  pub require_docs_only : Bool
  pub require_package_json_patch_only : Bool

pub record PackageJsonVersionChange : Type 0 where
  pub name : String
  pub before : String
  pub after : String

pub record AutoPromoteCandidate : Type 0 where
  pub files : List ChangesetFile
  pub package_json_changes : Option (List PackageJsonVersionChange)

-- Why a changeset is not promoted, with what the source's text says.
pub data Reason : Type 0 where
  no_files : Reason
  too_many_files : ℕ → ℕ → Reason
  too_many_lines : ℕ → ℕ → Reason
  off_path : String → Reason
  not_docs : String → Reason
  not_package : String → Reason
  no_version_changes : Reason
  not_patch : PackageJsonVersionChange → Reason

-- `none` is `{ matched: true }`.
abbrev pub AutoPromoteResult : Type 0
AutoPromoteResult = Option Reason

abbrev doc_pattern : List String
doc_pattern = "**/*.md" ∷ "**/*.mdx" ∷ []

abbrev package_pattern : List String
package_pattern =
    "**/package.json" ∷ "**/pnpm-lock.yaml" ∷ "**/package-lock.json" ∷ "**/yarn.lock" ∷ []

abbrev some_files : List ChangesetFile → AutoPromoteResult
some_files [] = some no_files
some_files (f ∷ fs) = none

-- `limit !== undefined && n > limit`
abbrev over_limit : (ℕ → ℕ → Reason) → ℕ → Option ℕ → AutoPromoteResult
over_limit why n none = none
over_limit why n (some limit) = if ltb limit n then some (why n limit) else none

-- The loops that return at the first element that fails a test.
unfoldable pub first_bad {ℓ} : {A : Type ℓ} → (A → Bool) → (A → Reason) → List A → AutoPromoteResult
first_bad good why [] = none
first_bad good why (x ∷ xs) =
    let rest = first_bad good why xs in if good x then rest else some (why x)

abbrev check_versions : Option (List PackageJsonVersionChange) → AutoPromoteResult
check_versions none = some no_version_changes
check_versions (some cs) = first_bad (λ c. is_patch_bump c.before c.after) not_patch cs

abbrev only_if : Bool → AutoPromoteResult → AutoPromoteResult
only_if b r = if b then r else none

module _ (matches_any : List String → String → Bool) where
  abbrev check_docs : Bool → List ChangesetFile → AutoPromoteResult
  check_docs flag files =
      only_if flag (first_bad (λ f. matches_any doc_pattern f.path) (λ f. not_docs f.path) files)

  abbrev check_packages : Bool → AutoPromoteCandidate → AutoPromoteResult
  check_packages flag changeset = only_if flag (
      or_else
        (first_bad (λ f. matches_any package_pattern f.path) (λ f. not_package f.path)
          changeset.files)
        (check_versions changeset.package_json_changes))

  unfoldable pub auto_promote_matches : AutoPromoteRule → AutoPromoteCandidate → AutoPromoteResult
  unfolding first_bad
  auto_promote_matches rule changeset = or_else (some_files changeset.files) (
      or_else (over_limit too_many_files (length changeset.files) rule.max_files_changed) (
        or_else (over_limit too_many_lines (sum_lines changeset.files) rule.max_lines_changed) (
          or_else
            (first_bad (λ f. matches_any rule.path_patterns f.path) (λ f. off_path f.path)
              changeset.files)
            (or_else (check_docs rule.require_docs_only changeset.files)
              (check_packages rule.require_package_json_patch_only changeset)))))

first_bad-none {ℓ} :
    {A : Type ℓ} (good : A → Bool) (why : A → Reason) (xs : List A)
    → (first_bad good why xs ≡ none) ↔ All (λ x. good x ≡ true) xs
unfolding first_bad
first_bad-none good why [] = (λ e. tt, λ h. refl)
first_bad-none good why (x ∷ xs) = elim (Bool-cases (good x)) [
  | inl q ↦ (
    λ e. (q, (first_bad-none good why xs).0 (rw q at e)),
    λ (p, h). rw q ((first_bad-none good why xs).1 h),
  )
  | inr q ↦ (λ e. cc (rw q at e), λ (p, h). cc (p, q))
]

-- As many as the limit, where there is one.
abbrev pub AtMost : Option ℕ → ℕ → Type 0
AtMost none n = Unit {0}
AtMost (some limit) n = n ≤ limit

over_limit-none :
    (why : ℕ → ℕ → Reason) (n : ℕ) (o : Option ℕ) → (over_limit why n o ≡ none) ↔ AtMost o n
over_limit-none why n none = (λ e. tt, λ h. refl)
over_limit-none why n (some limit) = (λ e. ground arith, λ h. ground arith)

some_files-none : (fs : List ChangesetFile) → (some_files fs ≡ none) ↔ (0 < length fs)
some_files-none [] = (λ e. cc, λ h. absurd (omega arith))
some_files-none (f ∷ fs) = (λ e. omega arith, λ h. refl)

only_if-none : (b : Bool) (r : AutoPromoteResult) → (only_if b r ≡ none) ↔ (b ≡ true → r ≡ none)
only_if-none true r = (λ e t. e, λ h. h refl)
only_if-none false r = (λ e t. cc, λ h. refl)

-- The changes of versions are given, and each is a patch bump.
abbrev pub ArePatches : Option (List PackageJsonVersionChange) → Type 0
ArePatches none = ⊥
ArePatches (some cs) = All (λ c. is_patch_bump c.before c.after ≡ true) cs

check_versions-none :
    (o : Option (List PackageJsonVersionChange)) → (check_versions o ≡ none) ↔ ArePatches o
check_versions-none none = (λ e. cc, λ h. elim h [ ])
check_versions-none (some cs) = first_bad-none _ _ cs

module _ (matches_any : List String → String → Bool) where
  abbrev OnPaths : List String → List ChangesetFile → Type 0
  OnPaths globs files = All (λ f. matches_any globs f.path ≡ true) files

  check_docs-none :
      (flag : Bool) (files : List ChangesetFile)
      → (check_docs matches_any flag files ≡ none) ↔ (flag ≡ true → OnPaths doc_pattern files)
  check_docs-none flag files =
      let loop =
        first_bad-none (λ f. matches_any doc_pattern f.path) (λ f. not_docs f.path) files in
      let guard =
        only_if-none flag
          (first_bad (λ f. matches_any doc_pattern f.path) (λ f. not_docs f.path) files) in
      (λ e t. loop.0 (guard.0 e t), λ h. guard.1 (λ t. loop.1 (h t)))

  check_packages-none :
      (flag : Bool) (changeset : AutoPromoteCandidate)
      → (check_packages matches_any flag changeset ≡ none) ↔ (
          flag ≡ true
          → OnPaths package_pattern changeset.files × ArePatches changeset.package_json_changes)
  check_packages-none flag changeset =
      let files =
        first_bad (λ f. matches_any package_pattern f.path) (λ f. not_package f.path)
          changeset.files in
      let loop =
        first_bad-none (λ f. matches_any package_pattern f.path) (λ f. not_package f.path)
          changeset.files in
      let versions = check_versions-none changeset.package_json_changes in
      let both = or_else-none files (check_versions changeset.package_json_changes) in
      let guard =
        only_if-none flag (or_else files (check_versions changeset.package_json_changes)) in
      (
        λ e t. let (p, v) = both.0 (guard.0 e t) in (loop.0 p, versions.0 v),
        λ h. guard.1 (λ t. both.1 (loop.1 (h t).0, versions.1 (h t).1)),
      )

-- Every constraint that the rule sets holds of the changeset.
pub record IsPromotable (matches_any : List String → String → Bool) (rule : AutoPromoteRule)
    (changeset : AutoPromoteCandidate) : Type 0 where
  pub changed : 0 < length changeset.files
  pub few_files : AtMost rule.max_files_changed (length changeset.files)
  pub few_lines : AtMost rule.max_lines_changed (sum_lines changeset.files)
  pub on_paths : OnPaths matches_any rule.path_patterns changeset.files
  pub docs : rule.require_docs_only ≡ true → OnPaths matches_any doc_pattern changeset.files
  pub packages :
      rule.require_package_json_patch_only ≡ true
      → OnPaths matches_any package_pattern changeset.files
        × ArePatches changeset.package_json_changes

-- A changeset is promoted without review exactly when every constraint that the rule sets holds of it.
pub auto_promote_matches_iff :
    (matches_any : List String → String → Bool) (rule : AutoPromoteRule)
    (changeset : AutoPromoteCandidate)
    → (auto_promote_matches matches_any rule changeset ≡ none)
      ↔ IsPromotable matches_any rule changeset
unfolding auto_promote_matches
auto_promote_matches_iff matches_any rule changeset = (
  λ e.
      let (a, e1) = (or_else-none _ _).0 e in
      let (b, e2) = (or_else-none _ _).0 e1 in
      let (c, e3) = (or_else-none _ _).0 e2 in
      let (d, e4) = (or_else-none _ _).0 e3 in
      let (f, g) = (or_else-none _ _).0 e4 in
      record {
        changed = (some_files-none changeset.files).0 a;
        few_files = (over_limit-none too_many_files _ rule.max_files_changed).0 b;
        few_lines = (over_limit-none too_many_lines _ rule.max_lines_changed).0 c;
        on_paths = (first_bad-none _ _ changeset.files).0 d;
        docs = (check_docs-none matches_any rule.require_docs_only changeset.files).0 f;
        packages =
            (check_packages-none matches_any rule.require_package_json_patch_only changeset).0 g;
      },
  λ v. (or_else-none _ _).1 (
    (some_files-none changeset.files).1 v.changed,
    (or_else-none _ _).1 (
      (over_limit-none too_many_files _ rule.max_files_changed).1 v.few_files,
      (or_else-none _ _).1 (
        (over_limit-none too_many_lines _ rule.max_lines_changed).1 v.few_lines,
        (or_else-none _ _).1 (
          (first_bad-none _ _ changeset.files).1 v.on_paths,
          (or_else-none _ _).1 (
            (check_docs-none matches_any rule.require_docs_only changeset.files).1 v.docs,
            (check_packages-none matches_any rule.require_package_json_patch_only changeset).1
                v.packages,
          ),
        ),
      ),
    ),
  ),
)
