-- ===== src/Policy/Glob/Meaning.antt =====
-- What a glob of packages/agent-runtime/src/policy.ts means, said of its text and not of the expression that it compiles to.
use Prim.Native.Char.{Char, code}
use Prim.Native.String.{String, [], ◌∷◌}
use mergecrew.Base.{◌≡◌, ◌≢◌}

-- `*`, `?` and `/`.
abbrev pub IsStar : Char → Type 0
IsStar c = code c ≡ 42

abbrev pub IsMark : Char → Type 0
IsMark c = code c ≡ 63

abbrev pub IsSlash : Char → Type 0
IsSlash c = code c ≡ 47

-- A character of a line.
abbrev pub IsInline : Char → Type 0
IsInline c = (code c ≢ 10) × (code c ≢ 13) × (code c ≢ 8232) × (code c ≢ 8233)

-- The glob does not go on with a star.
abbrev pub NoStar : String → Type 0
NoStar [] = Unit
NoStar (c ∷ g) = ¬ IsStar c

-- The glob that two stars leave: a slash right after them belongs to them.
pub data AfterStars : String → String → Type 0 where
  at_end : AfterStars [] []
  with_slash : {c : Char} {g : String} → IsSlash c → AfterStars (c ∷ g) g
  without_slash : {c : Char} {g : String} → ¬ IsSlash c → AfterStars (c ∷ g) (c ∷ g)

-- The glob, and a path that it matches.
pub data Matches : String → String → Type 0 where
  both_end : Matches [] []
  same_char :
      {a c : Char} {g s : String}
      → ¬ IsStar a
      → ¬ IsMark a
      → code c ≡ code a
      → Matches g s
      → Matches (a ∷ g) (c ∷ s)
  one_char :
      {a c : Char} {g s : String} → IsMark a → ¬ IsSlash c → Matches g s → Matches (a ∷ g) (c ∷ s)
  star_ends : {a : Char} {g s : String} → IsStar a → NoStar g → Matches g s → Matches (a ∷ g) s
  star_takes :
      {a c : Char} {g s : String}
      → IsStar a
      → NoStar g
      → ¬ IsSlash c
      → Matches (a ∷ g) s
      → Matches (a ∷ g) (c ∷ s)
  stars_end :
      {a b : Char} {g h s : String}
      → IsStar a
      → IsStar b
      → AfterStars g h
      → Matches h s
      → Matches (a ∷ b ∷ g) s
  stars_take :
      {a b c : Char} {g s : String}
      → IsStar a
      → IsStar b
      → IsInline c
      → Matches (a ∷ b ∷ g) s
      → Matches (a ∷ b ∷ g) (c ∷ s)
