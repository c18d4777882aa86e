-- ===== src/Llm/Refs.antt =====
-- packages/llm/src/router.ts: a candidate's text, cut at its first slash.
use Prim.Native.Char.{Char, code}
use Prim.Native.String.{String, [], ◌∷◌, ◌++◌}
use mergecrew.Base.{Option, none, some, if◌then◌else◌, ◌==◌}

abbrev with_front : Char → Option (String × String) → Option (String × String)
with_front c none = none
with_front c (some (p, m)) = some (c ∷ p, m)

-- `ref.indexOf('/')` and the two slices: what stands before the first slash and after it.
unfoldable pub split_ref : String → Option (String × String)
split_ref [] = none
split_ref (c ∷ s) =
    let rest = split_ref s in if code c == 47 then some ([], s) else with_front c rest

-- `${providerId}/${modelId}`
abbrev pub key_of : String → String → String
key_of p m = p ++ ("/" ++ m)
