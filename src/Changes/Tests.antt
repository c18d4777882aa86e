-- ===== src/Changes/Tests.antt =====
-- The checks on a small changeset.
use text.Mathlib.Text.{starts_with}
use mergecrew.Base.{
  ℕ, Option, All, str_eq, if◌then◌else◌, any, none, false, true, List, Bool, String, some, [], ◌∷◌,
  Bool, ◌≡◌, refl, ◌↔◌,
}
use mergecrew.Changes.{ChangesetFile, lines_from}
use mergecrew.Changes.Radius.{BlastRadiusLimits}
use mergecrew.Changes.Versions.{semver, is_patch_bump}
use mergecrew.Changes.Promote.{
  AutoPromoteRule, AutoPromoteCandidate, auto_promote_matches, IsPromotable,
  auto_promote_matches_iff,
}
use mergecrew.Changes.Manifest.{
  Json, str, obj, Items, nil, end, field, deep_equal, walk, block_changes, blocks_changes,
  siblings_equal, parse_package_json_diff, accumulate, package_json_changes,
}
use mergecrew.Changes.Manifest.Patches.{IsPatchOnly, promoted-IsPatchOnly}

-- A directory's name stands for the glob of what lies under it.
abbrev under : String → String → Bool
under glob path = starts_with path glob

abbrev readme : ChangesetFile
readme = record { path = "docs/readme.md"; additions = 3; deletions = 1 }

abbrev login : ChangesetFile
login = record { path = "auth/login.ts"; additions = 20; deletions = 6 }

abbrev limits : BlastRadiusLimits
limits = record { max_files_changed = 2; max_lines_changed = 50; denied_paths = "secrets/" ∷ [] }

versions :
    (is_patch_bump "^1.2.3" "1.2.10" ≡ true)
    × (is_patch_bump "1.2.3" "1.3.0" ≡ false)
    × (is_patch_bump "1.2" "1.2.1" ≡ false)
unfolding is_patch_bump semver
versions = (refl, refl, refl)

-- Some glob of a list stands in front of the path.
abbrev any_under : List String → String → Bool
any_under globs path = any (λ glob. starts_with path glob) globs

abbrev docs_only : AutoPromoteRule
docs_only = record {
  name = "docs-only";
  path_patterns = "docs/" ∷ [];
  max_files_changed = some 3;
  max_lines_changed = some 100;
  require_docs_only = false;
  require_package_json_patch_only = false;
}

abbrev docs_change : AutoPromoteCandidate
docs_change = record { files = readme ∷ []; package_json_changes = none }

auto_promote_matches_iff_example :
    (auto_promote_matches any_under docs_only docs_change ≡ none)
    ↔ IsPromotable any_under docs_only docs_change
auto_promote_matches_iff_example = auto_promote_matches_iff any_under docs_only docs_change

-- The expression for a version has no end, so what follows the three numbers is not looked at.
wider_range : is_patch_bump "1.2.3" "1.2.4 || 9.0.0" ≡ true
unfolding is_patch_bump semver
wider_range = refl

abbrev no_names : ℕ → String
no_names i = "0"

abbrev no_chars : String → Items
no_chars s = nil

abbrev package_with : String → Json
package_with version =
    obj (field "name" (str "shop") (field "dependencies" (obj (field "zod" (str version) end)) end))

-- A parser that knows two texts.
abbrev parse_two : String → Option Json
parse_two text =
    if str_eq text "old"
    then some (package_with "3.0.1")
    else if str_eq text "new"
    then some (package_with "3.0.2")
    else none

abbrev texts : List (String × String)
texts = ("old", "new") ∷ []

abbrev any_path : List String → String → Bool
any_path globs path = true

abbrev patch_only : AutoPromoteRule
patch_only = record {
  name = "patches";
  path_patterns = "**" ∷ [];
  max_files_changed = some 3;
  max_lines_changed = some 100;
  require_docs_only = false;
  require_package_json_patch_only = true;
}

abbrev patched : AutoPromoteCandidate
patched = record {
  files = record { path = "package.json"; additions = 1; deletions = 1 } ∷ [];
  package_json_changes = some (record { name = "zod"; before = "3.0.1"; after = "3.0.2" } ∷ []);
}

read_changes :
    patched.package_json_changes ≡ package_json_changes no_names no_chars parse_two true texts
unfolding package_json_changes accumulate parse_package_json_diff blocks_changes block_changes walk
    siblings_equal deep_equal
read_changes = refl

patched_promoted : auto_promote_matches any_path patch_only patched ≡ none
unfolding auto_promote_matches is_patch_bump semver lines_from
patched_promoted = refl

promoted-IsPatchOnly_example : All (λ f. IsPatchOnly no_names no_chars parse_two f.0 f.1) texts
promoted-IsPatchOnly_example =
    promoted-IsPatchOnly no_names no_chars parse_two any_path patch_only true texts patched refl
      read_changes patched_promoted
