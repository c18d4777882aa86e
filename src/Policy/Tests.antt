-- ===== src/Policy/Tests.antt =====
-- The policy engine on concrete calls.
use mergecrew.Base.{Option, none, some, [], ◌∷◌, true, false, ◌≡◌, refl, ◌↔◌}
use mergecrew.Policy.{PolicyContext, text, other, ToolInput, paths_from_input}
use mergecrew.Policy.Glob.{minimatch}
use mergecrew.Policy.Glob.Meaning.{Matches}
use mergecrew.Policy.Glob.Decides.{minimatch_iff}

abbrev context : PolicyContext
context = record {
  agent_do_not_touch = "infra/**" ∷ [];
  project_sensitive_patterns = "*.lock" ∷ [];
  project_hard_blocked = ".github/**" ∷ [];
}

abbrev commit : Option ToolInput
commit =
    some
      (record { path = none; paths = some (text "src/a.ts" ∷ other ∷ text ".github/ci.yml" ∷ []) })

globs :
    (minimatch "src/a.ts" "src/*.ts" ≡ true)
    × (minimatch "src/a/b.ts" "src/*.ts" ≡ false)
    × (minimatch "src/a/b.ts" "src/**/b.ts" ≡ true)
    × (minimatch "src/b.ts" "src/**/b.ts" ≡ true)
    × (minimatch "xauth/a" "**/auth/**" ≡ true)
    × (minimatch "a.b" "a?b" ≡ true)
unfolding minimatch
globs = (refl, refl, refl, refl, refl, refl)

paths : paths_from_input "repo.git.commit" commit ≡ "src/a.ts" ∷ ".github/ci.yml" ∷ []
unfolding paths_from_input
paths = refl

minimatch_iff_example : (minimatch "src/a.ts" "src/*.ts" ≡ true) ↔ Matches "src/*.ts" "src/a.ts"
minimatch_iff_example = minimatch_iff "src/a.ts" "src/*.ts"
