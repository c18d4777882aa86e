-- ===== src/Changes/Versions.antt =====
-- packages/domain/src/auto-promote.ts: `isPatchBump` and its expression
-- `/^([0-9]+)\.([0-9]+)\.([0-9]+)/`, after one `^` or `~` is cut off the front.
use Prim.Native.Char.{Char, code}
use Prim.Native.String.{String, [], ◌∷◌}
use mergecrew.Base.{
  ℕ, ◌+◌, ◌-◌, ◌*◌, Option, none, some, Bool, true, false, not, ◌&&◌, ◌||◌, ◌≡◌, refl, arith,
  str_eq, eq_iff, ltb, leb, ◌==◌, if◌then◌else◌,
}

abbrev is_digit : Char → Bool
is_digit c = leb 48 (code c) && leb (code c) 57

abbrev strip_range : String → String
strip_range [] = []
strip_range (c ∷ s) = if code c == 94 || code c == 126 then s else c ∷ s

abbrev push : Char → String × String → String × String
push c (ds, rest) = (c ∷ ds, rest)

-- The digits in front, and what follows them.
unfoldable digits : String → String × String
digits [] = ([], [])
digits (c ∷ s) = let later = digits s in if is_digit c then push c later else ([], c ∷ s)

-- What follows a dot.
abbrev after_dot : String → Option String
after_dot [] = none
after_dot (c ∷ s) = if code c == 46 then some s else none

abbrev is_empty_text : String → Bool
is_empty_text [] = true
is_empty_text (c ∷ s) = false

abbrev filled : String → Option String
filled ds = if is_empty_text ds then none else some ds

abbrev last_part : String → String → Option String → Option (String × String × String)
last_part x y none = none
last_part x y (some p) = some (x, y, p)

abbrev third : String → String → Option String → Option (String × String × String)
unfolding digits
third x y none = none
third x y (some s) = let (ds, rest) = digits s in last_part x y (filled ds)

abbrev minor_part : String → String × String → Option (String × String × String)
minor_part x (ds, rest) = if is_empty_text ds then none else third x ds (after_dot rest)

abbrev second : String → Option String → Option (String × String × String)
unfolding digits
second x none = none
second x (some s) = minor_part x (digits s)

abbrev major_part : String × String → Option (String × String × String)
major_part (ds, rest) = if is_empty_text ds then none else second ds (after_dot rest)

-- `SEMVER.exec(version.replace(/^[\^~]/, ''))`: the three groups.
unfoldable pub semver : String → Option (String × String × String)
unfolding digits
semver v = major_part (digits (strip_range v))

-- `Number(group)`
abbrev pub number_from : ℕ → String → ℕ
number_from acc [] = acc
number_from acc (c ∷ s) = number_from (10 * acc + (code c - 48)) s

abbrev pub bumps : Option (String × String × String) → Option (String × String × String) → Bool
bumps none b = false
bumps (some a) none = false
bumps (some (x, y, p)) (some (x', y', p')) =
    if not (str_eq x x')
    then false
    else if not (str_eq y y')
    then false
    else ltb (number_from 0 p) (number_from 0 p')

unfoldable pub is_patch_bump : String → String → Bool
is_patch_bump before after = bumps (semver before) (semver after)

bumps_trans :
    (a b c : Option (String × String × String))
    → bumps a b ≡ true
    → bumps b c ≡ true
    → bumps a c ≡ true
bumps_trans none b c h k = h
bumps_trans (some a) none c h k = cc
bumps_trans (some a) (some b) none h k = cc
bumps_trans (some (x, y, p)) (some (x', y', p')) (some (x'', y'', p'')) h k =
    ground
      (arith, eq_iff x x', eq_iff x' x'', eq_iff x x'', eq_iff y y', eq_iff y' y'', eq_iff y y'')

bumps_irrefl : (a : Option (String × String × String)) → bumps a a ≡ false
bumps_irrefl none = refl
bumps_irrefl (some (x, y, p)) = ground (arith, eq_iff x x, eq_iff y y)

-- Patch bumps are a strict order on the versions: they compose, and no version is a bump of itself, so none is
-- undone by another.
pub is_patch_bump_order :
    (u v w : String)
    → (is_patch_bump u v ≡ true → is_patch_bump v w ≡ true → is_patch_bump u w ≡ true)
      × (is_patch_bump u u ≡ false)
unfolding is_patch_bump
is_patch_bump_order u v w = (bumps_trans (semver u) (semver v) (semver w), bumps_irrefl (semver u))
