-- ===== src/Changes.antt =====
-- packages/domain/src: the checks on a changeset's files. `blast-radius.ts`, `risk-score.ts`,
-- `auto-promote.ts`, and apps/runner/src/risk-chip.ts. The glob library and the regular expressions over
-- paths are parameters.
pub mod Radius
pub mod Chip
pub mod Versions
pub mod Promote
pub mod Manifest
mod Tests
use mergecrew.Base.{
  ℕ, zero, suc, ◌+◌, ◌*◌, String, Option, none, some, List, [], ◌∷◌, ◌++◌, Bool, true, false, not,
  ◌&&◌, ◌||◌, if◌then◌else◌, ltb, length, find,
}

pub record ChangesetFile : Type 0 where
  pub path : String
  pub additions : ℕ
  pub deletions : ℕ

pub record DeniedHit : Type 0 where
  pub path : String
  pub glob : String

-- `files.reduce((sum, f) => sum + f.additions + f.deletions, 0)`
unfoldable pub lines_from : ℕ → List ChangesetFile → ℕ
lines_from sum [] = sum
lines_from sum (f ∷ fs) = lines_from (sum + f.additions + f.deletions) fs

abbrev pub sum_lines : List ChangesetFile → ℕ
sum_lines = lines_from 0

-- `matches glob path` is picomatch's answer.
module _ (matches : String → String → Bool) where
  abbrev first_hit : String → Option String → List DeniedHit
  first_hit p none = []
  first_hit p (some g) = record { path = p; glob = g } ∷ []

  -- One hit for each file: the first glob that matches it.
  unfoldable pub hits : List String → List ChangesetFile → List DeniedHit
  hits globs [] = []
  hits globs (f ∷ fs) = first_hit f.path (find (λ g. matches g f.path) globs) ++ hits globs fs

  unfoldable pub path_hits : List String → List ChangesetFile → List DeniedHit
  unfolding hits
  path_hits [] fs = []
  path_hits (g ∷ globs) fs = hits (g ∷ globs) fs
