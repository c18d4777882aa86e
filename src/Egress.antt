-- ===== src/Egress.antt =====
-- The host allowlists: what the matchers of apps/runner-dns/src/allowlist.ts, apps/runner-egress-proxy/src/allowlist.ts
-- and packages/skills/src/egress-policy.ts share. Each of the three has its own copy of it. A host is a list of
-- character codes, and lower case is that of ASCII.
pub mod Resolver
pub mod Proxy
pub mod Skill
pub mod Allows
pub mod Agree
pub mod Audit
pub mod Settings
pub mod Connect
mod Tests
use mergecrew.Base.{
  ℕ, ◌-◌, Bool, true, false, ◌&&◌, ◌||◌, if◌then◌else◌, ◌==◌, leb, List, [], ◌∷◌, length, Text,
  codes, to_lower, same_text, drop,
}

-- An atom of the regular expression: a letter, or a class of them.
pub data Atom : Type 0 where
  letter : ℕ → Atom
  range : ℕ → ℕ → Atom
  hex : Atom

abbrev pub fits_atom : Atom → ℕ → Bool
fits_atom (letter a) c = a == c
fits_atom (range a b) c = leb a c && leb c b
fits_atom hex c = (leb 48 c && leb c 57) || (leb 97 c && leb c 102)

-- A match at the beginning; the expression has the flag `i`.
unfoldable pub begins : List Atom → Text → Bool
begins [] s = true
begins (a ∷ re) [] = false
begins (a ∷ re) (c ∷ s) = fits_atom a (to_lower c) && begins re s

-- The letters of a text, then an expression.
unfoldable pub then_atoms : Text → List Atom → List Atom
then_atoms [] re = re
then_atoms (c ∷ s) re = letter c ∷ then_atoms s re

-- The alternatives of `PRIVATE_HOSTS`.
unfoldable pub private_hosts : List (List Atom)
unfolding then_atoms
private_hosts =
    then_atoms (codes "localhost") []
    ∷ then_atoms (codes "127.") []
    ∷ then_atoms (codes "10.") []
    ∷ then_atoms (codes "192.168.") []
    ∷ then_atoms (codes "172.1") (range 54 57 ∷ then_atoms (codes ".") [])
    ∷ then_atoms (codes "172.2") (range 48 57 ∷ then_atoms (codes ".") [])
    ∷ then_atoms (codes "172.3") (range 48 49 ∷ then_atoms (codes ".") [])
    ∷ then_atoms (codes "::1") []
    ∷ then_atoms (codes "fc") (hex ∷ hex ∷ then_atoms (codes ":") [])
    ∷ then_atoms (codes "fd") (hex ∷ hex ∷ then_atoms (codes ":") [])
    ∷ then_atoms (codes "fe80:") []
    ∷ []

abbrev pub begins_any : List (List Atom) → Text → Bool
begins_any [] s = false
begins_any (re ∷ res) s = begins re s || begins_any res s

unfoldable pub is_private : Text → Bool
is_private host = begins_any private_hosts host

unfoldable pub starts_with : Text → Text → Bool
starts_with [] s = true
starts_with (c ∷ p) [] = false
starts_with (c ∷ p) (d ∷ s) = c == d && starts_with p s

unfoldable pub ends_with : Text → Text → Bool
ends_with e s = leb (length e) (length s) && same_text (drop (length s - length e) s) e

-- The tests of one pattern.
unfoldable pub pattern_fits : Text → Text → Bool
pattern_fits pattern host =
    if same_text pattern (codes "*")
    then true
    else if same_text pattern host
    then true
    else (starts_with (codes "*.") pattern && ends_with (46 ∷ drop 2 pattern) host)
