-- ===== src/Egress/Settings.antt =====
-- `parseAllowlistEnv`, which apps/runner-dns/src/allowlist.ts and apps/runner-egress-proxy/src/allowlist.ts both have.
use mergecrew.Base.{
  ℕ, Option, none, some, not, if◌then◌else◌, List, [], ◌∷◌, map, keep, ◌==◌, Text, trim, is_empty,
}

abbrev prepend : ℕ → List Text → List Text
prepend c [] = (c ∷ []) ∷ []
prepend c (l ∷ ls) = (c ∷ l) ∷ ls

-- `value.split(',')`
unfoldable pub split_commas : Text → List Text
split_commas [] = [] ∷ []
split_commas (c ∷ s) = let rest = split_commas s in if c == 44 then [] ∷ rest else prepend c rest

unfoldable pub parse_allowlist_env : Option Text → List Text
parse_allowlist_env none = []
parse_allowlist_env (some []) = []
parse_allowlist_env (some (c ∷ s)) = keep (λ p. not (is_empty p)) (map trim (split_commas (c ∷ s)))
