-- ===== src/Base/Lists.antt =====
-- Arrays as lists, measured by native numbers, with Boolean searches.
use Prim.Native.Nat.{ℕ, suc, ◌+◌, ◌≤◌, ◌<◌}
use mathlib.Core.Path.{◌≡◌, refl}
use mathlib.Core.Logic.{◌↔◌, inl, inr}
use mathlib.Core.Bool.{Bool, true, false, ◌&&◌, ◌||◌}
use mathlib.Core.Option.{Option, none, some}
use mathlib.Core.List.{List, [], ◌∷◌, ◌++◌}
use native.Mathlib.Omega.{arith}
use Prim.Native.String.{String}
use text.Mathlib.Text.{◌==◌ as str_eq}
use text.Mathlib.TextEquality.{eq_iff}
use mergecrew.Base.Tests.{if◌then◌else◌, Bool-cases}

-- `o === s` for a text that may be missing.
abbrev pub opt_is : String → Option String → Bool
opt_is s none = false
opt_is s (some w) = str_eq w s

pub opt_is_iff : (s : String) (o : Option String) → (opt_is s o ≡ true) ↔ (o ≡ some s)
opt_is_iff s none = (λ h. cc, λ h. cc)
opt_is_iff s (some w) = ground (arith, eq_iff w s)

module _ {ℓ} {A : Type ℓ} where
  abbrev pub length : List A → ℕ
  length [] = 0
  length (x ∷ xs) = suc (length xs)

  pub length-append : (xs ys : List A) → length (xs ++ ys) ≡ length xs + length ys
  length-append [] ys = omega arith
  length-append (x ∷ xs) ys = omega (arith, length-append xs ys)

  -- `Array.prototype.some`, `every`, `find`, `filter` and a count, with Boolean tests.
  abbrev pub any : (A → Bool) → List A → Bool
  any p [] = false
  any p (x ∷ xs) = p x || any p xs

  abbrev pub all : (A → Bool) → List A → Bool
  all p [] = true
  all p (x ∷ xs) = p x && all p xs

  abbrev pub find : (A → Bool) → List A → Option A
  find p [] = none
  find p (x ∷ xs) = if p x then some x else find p xs

  abbrev pub keep : (A → Bool) → List A → List A
  keep p [] = []
  keep p (x ∷ xs) = if p x then x ∷ keep p xs else keep p xs

  abbrev pub count_of : (A → Bool) → List A → ℕ
  count_of p [] = 0
  count_of p (x ∷ xs) = if p x then suc (count_of p xs) else count_of p xs

  abbrev pub All {κ} : (A → Type κ) → List A → Type κ
  All P [] = Unit
  All P (x ∷ xs) = P x × All P xs

  pub All-map {κ ν} :
      {P : A → Type κ} {Q : A → Type ν} (f : (x : A) → P x → Q x) (xs : List A)
      → All P xs
      → All Q xs
  All-map f [] h = tt
  All-map f (x ∷ xs) (p, h) = (f x p, All-map f xs h)

  pub All-append {κ} :
      (P : A → Type κ) (xs : List A) {y : A} → All P xs → P y → All P (xs ++ (y ∷ []))
  All-append P [] h p = (p, tt)
  All-append P (x ∷ xs) h p = (h.0, All-append P xs h.1 p)

  -- Some element satisfies `P`, with its place.
  pub data Any {κ} (P : A → Type κ) : List A → Type (ℓ ⊔ κ) where
    here : {x : A} {xs : List A} → P x → Any P (x ∷ xs)
    there : {x : A} {xs : List A} → Any P xs → Any P (x ∷ xs)

  pub any_sound : (p : A → Bool) (xs : List A) → any p xs ≡ true → Any (λ x. p x ≡ true) xs
  any_sound p [] h = ground arith
  any_sound p (x ∷ xs) h = elim (Bool-cases (p x)) [
    | inl e ↦ here e
    | inr e ↦ there (any_sound p xs (ground arith))
  ]

  pub any_complete : (p : A → Bool) (xs : List A) → Any (λ x. p x ≡ true) xs → any p xs ≡ true
  any_complete p [] a = elim a [ ]
  any_complete p (x ∷ xs) (here e) = ground arith
  any_complete p (x ∷ xs) (there a) = ground (arith, any_complete p xs a)

  pub all_sound : (p : A → Bool) (xs : List A) → all p xs ≡ true → All (λ x. p x ≡ true) xs
  all_sound p [] h = tt
  all_sound p (x ∷ xs) h = (ground arith, all_sound p xs (ground arith))

  pub all_complete : (p : A → Bool) (xs : List A) → All (λ x. p x ≡ true) xs → all p xs ≡ true
  all_complete p [] h = refl
  all_complete p (x ∷ xs) (e, h) = ground (arith, all_complete p xs h)

  pub count_of-append :
      (p : A → Bool) (xs ys : List A) → count_of p (xs ++ ys) ≡ count_of p xs + count_of p ys
  count_of-append p [] ys = omega arith
  count_of-append p (x ∷ xs) ys = ground (arith, count_of-append p xs ys)

  pub count_of-le-length : (p : A → Bool) (xs : List A) → count_of p xs ≤ length xs
  count_of-le-length p [] = omega arith
  count_of-le-length p (x ∷ xs) = ground (arith, count_of-le-length p xs)

  pub Any-map {κ ν} :
      {P : A → Type κ} {Q : A → Type ν} (f : (x : A) → P x → Q x) {xs : List A}
      → Any P xs
      → Any Q xs
  Any-map f (here {x} p) = here (f x p)
  Any-map f (there a) = there (Any-map f a)

  pub Any-some {κ} : {P : A → Type κ} {xs : List A} → Any P xs → (x : A) × P x
  Any-some (here {x} p) = (x, p)
  Any-some (there a) = Any-some a

  -- A fact of every element meets a fact of some element.
  pub All-Any {κ ν} :
      {P : A → Type κ} {Q : A → Type ν} {xs : List A} → Any Q xs → All P xs → (x : A) × P x × Q x
  All-Any (here {x} q) h = (x, h.0, q)
  All-Any (there a) h = All-Any a h.1

  pub find-Any :
      (p : A → Bool) (xs : List A) {x : A}
      → find p xs ≡ some x
      → Any (λ y. (y ≡ x) × (p y ≡ true)) xs
  find-Any p [] h = ground arith
  find-Any p (y ∷ xs) h = elim (Bool-cases (p y)) [
    | inl q ↦ here (ground arith, q)
    | inr q ↦ there (find-Any p xs (ground arith))
  ]

  -- A search that some element meets succeeds.
  pub find_total :
      (p : A → Bool) (xs : List A) → Any (λ x. p x ≡ true) xs → (x : A) × (find p xs ≡ some x)
  find_total p [] a = elim a [ ]
  find_total p (y ∷ xs) (here e) = (y, ground arith)
  find_total p (y ∷ xs) (there a) = elim (Bool-cases (p y)) [
    | inl q ↦ (y, ground arith)
    | inr q ↦ let (x, e) = find_total p xs a in (x, ground arith)
  ]

  keep_cons-Any {κ} :
      {P : A → Type κ} (p : A → Bool) (x : A) (xs : List A)
      → p x ≡ true
      → (Any P (keep p xs) → Any (λ y. P y × (p y ≡ true)) xs)
      → Any P (x ∷ keep p xs)
      → Any (λ y. P y × (p y ≡ true)) (x ∷ xs)
  keep_cons-Any p x xs q later (here h) = here (h, q)
  keep_cons-Any p x xs q later (there a) = there (later a)

  pub keep-Any {κ} :
      {P : A → Type κ} (p : A → Bool) (xs : List A)
      → Any P (keep p xs)
      → Any (λ x. P x × (p x ≡ true)) xs
  keep-Any p [] a = elim a [ ]
  keep-Any p (x ∷ xs) a = elim (Bool-cases (p x)) [
    | inl q ↦ keep_cons-Any p x xs q (keep-Any p xs) (rw q at a)
    | inr q ↦ there (keep-Any p xs (rw q at a))
  ]

  pub Any-keep {κ} :
      {P : A → Type κ} (p : A → Bool) (xs : List A)
      → Any (λ x. P x × (p x ≡ true)) xs
      → Any P (keep p xs)
  Any-keep p [] a = elim a [ ]
  Any-keep p (x ∷ xs) (here (h, q)) = rw q (here h)
  Any-keep {P} p (x ∷ xs) (there a) = elim (Bool-cases (p x)) [
    | inl q ↦ rw q (there (Any-keep p xs a))
    | inr q ↦ rw q (Any-keep p xs a)
  ]

  pub count-pos : (p : A → Bool) {xs : List A} → Any (λ x. p x ≡ true) xs → 0 < count_of p xs
  count-pos p (here e) = ground arith
  count-pos p (there a) = ground (arith, count-pos p a)

  pub count-none : (p : A → Bool) (xs : List A) → any p xs ≡ false → count_of p xs ≡ 0
  count-none p [] h = refl
  count-none p (x ∷ xs) h = ground (arith, count-none p xs)
