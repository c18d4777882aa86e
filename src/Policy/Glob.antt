-- ===== src/Policy/Glob.antt =====
-- packages/agent-runtime/src/policy.ts: `minimatch` and `globToRegExp`. The regular expression is the list of its
-- atoms. A text here has no character above U+FFFF, so that a character is one unit of a JavaScript string.
pub mod Fits
pub mod Meaning
pub mod Decides
use Prim.Native.Char.{Char, code}
use Prim.Native.String.{String, [], ◌∷◌, ◌++◌}
use mathlib.Core.List.{List, [] as []ᴸ, ◌∷◌ as ◌∷ᴸ◌}
use mergecrew.Base.{Bool, true, false, not, ◌&&◌, ◌||◌, if◌then◌else◌, ◌==◌}

-- The atoms `c`, `[^/]`, `[^/]*` and `.*`.
pub data Atom : Type 0 where
  lit : Char → Atom
  any_char star glob_star : Atom

abbrev pub non_slash : Char → Bool
non_slash c = not (code c == 47)

-- What `.` matches: no line terminator.
abbrev pub dot : Char → Bool
dot c = not (code c == 10 || code c == 13 || code c == 8232 || code c == 8233)

abbrev pub is_star : Char → Bool
is_star c = code c == 42

-- What the loop over the glob does next: an ordinary step, after one `*`, after `**`.
pub data Place : Type 0 where
  plain after_star after_stars : Place

-- A character where no `*` is open.
abbrev atom_of : Char → Atom
atom_of c = if code c == 63 then any_char else lit c

-- `globToRegExp`: `**` swallows a `/` that follows it.
unfoldable pub compile : Place → String → List Atom
compile plain [] = []ᴸ
compile after_star [] = star ∷ᴸ []ᴸ
compile after_stars [] = glob_star ∷ᴸ []ᴸ
compile plain (c ∷ s) =
    let opened = compile after_star s in
    let rest = compile plain s in if is_star c then opened else atom_of c ∷ᴸ rest
compile after_star (c ∷ s) =
    let doubled = compile after_stars s in
    let rest = compile plain s in if is_star c then doubled else star ∷ᴸ atom_of c ∷ᴸ rest
compile after_stars (c ∷ s) =
    let opened = compile after_star s in
    let rest = compile plain s in
    if code c == 47
    then glob_star ∷ᴸ rest
    else if is_star c
    then glob_star ∷ᴸ opened
    else glob_star ∷ᴸ atom_of c ∷ᴸ rest

-- A run of characters of a class, and then what `k` accepts.
unfoldable pub run_of : (Char → Bool) → (String → Bool) → String → Bool
run_of p k [] = k []
run_of p k (c ∷ s) = k (c ∷ s) || (p c && run_of p k s)

abbrev pub one_of : (Char → Bool) → (String → Bool) → String → Bool
one_of p k [] = false
one_of p k (c ∷ s) = p c && k s

abbrev pub is_char : Char → Char → Bool
is_char a c = code c == code a

-- `re.test(input)`, anchored at both ends.
unfoldable pub accepts : List Atom → String → Bool
unfolding run_of
accepts []ᴸ [] = true
accepts []ᴸ (c ∷ s) = false
accepts (lit a ∷ᴸ re) s = one_of (is_char a) (accepts re) s
accepts (any_char ∷ᴸ re) s = one_of non_slash (accepts re) s
accepts (star ∷ᴸ re) s = run_of non_slash (accepts re) s
accepts (glob_star ∷ᴸ re) s = run_of dot (accepts re) s

unfoldable pub minimatch : String → String → Bool
unfolding accepts compile
minimatch input pattern = accepts (compile plain pattern) input

abbrev pub join : String → String → String
join s t = s ++ t
