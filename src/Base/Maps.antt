-- ===== src/Base/Maps.antt =====
-- JavaScript maps and records as lists in the order of insertion, each entry with its key.
use mathlib.Core.Path.{◌≡◌, refl, sym, ◌∙◌}
use mathlib.Core.Logic.{inl, inr}
use mathlib.Core.Bool.{true, false}
use mathlib.Core.Option.{Option, none, some}
use mathlib.Core.List.{List, [], ◌∷◌}
use native.Mathlib.Omega.{arith}
use Prim.Native.String.{String}
use text.Mathlib.Text.{◌==◌ as str_eq}
use text.Mathlib.TextEquality.{eq_iff}
use mergecrew.Base.Tests.{if◌then◌else◌, Bool-cases, or_else}
use mergecrew.Base.Lists.{find}

or_else_assoc {ℓ} :
    {A : Type ℓ} (a b c : Option A) → or_else a (or_else b c) ≡ or_else (or_else a b) c
or_else_assoc none b c = refl
or_else_assoc (some x) b c = refl

-- A text that differs from another one's equal.
differs : (x y k : String) → str_eq y x ≡ false → str_eq y k ≡ true → str_eq x k ≡ false
differs x y k q h = elim (Bool-cases (str_eq x k)) [
  | inl e ↦
      let same : y ≡ x = (eq_iff y k).0 h ∙ sym ((eq_iff x k).0 e) in cc (q, (eq_iff y x).1 same)
  | inr e ↦ e
]

module _ {A : Type 0} (key : A → String) where
  -- `map.set(key, x)`: an entry keeps its place, a new one comes last.
  unfoldable pub set_entry : A → List A → List A
  set_entry x [] = x ∷ []
  set_entry x (y ∷ ys) =
      let rest = set_entry x ys in if str_eq (key y) (key x) then x ∷ ys else y ∷ rest

  unfoldable pub set_all : List A → List A → List A
  set_all [] base = base
  set_all (x ∷ xs) base = set_all xs (set_entry x base)

  abbrev pub lookup_in : String → List A → Option A
  lookup_in k xs = find (λ x. str_eq (key x) k) xs

  -- The last entry of the key.
  abbrev pub latest : String → List A → Option A
  latest k [] = none
  latest k (x ∷ xs) = or_else (latest k xs) (if str_eq (key x) k then some x else none)

  pub lookup-set_entry :
      (k : String) (x : A) (ys : List A)
      → lookup_in k (set_entry x ys)
        ≡ or_else (if str_eq (key x) k then some x else none) (lookup_in k ys)
  unfolding set_entry
  lookup-set_entry k x [] = ground arith
  lookup-set_entry k x (y ∷ ys) = elim (Bool-cases (str_eq (key y) (key x))) [
    | inl q ↦
        let same : key y ≡ key x = (eq_iff _ _).0 q in
        elim (Bool-cases (str_eq (key x) k)) [
          | inl h ↦ rw (q, h) refl
          | inr h ↦ let other : str_eq (key y) k ≡ false = rw same h in rw (q, h, other) refl
        ]
    | inr q ↦ elim (Bool-cases (str_eq (key y) k)) [
      | inl h ↦
          let apart : str_eq (key x) k ≡ false = differs (key x) (key y) k q h in
          rw (q, h, apart) refl
      | inr h ↦ rw (q, h) (lookup-set_entry k x ys)
    ]
  ]

  -- What the entries of the project hide, and what they leave.
  pub lookup-set_all :
      (k : String) (xs base : List A)
      → lookup_in k (set_all xs base) ≡ or_else (latest k xs) (lookup_in k base)
  unfolding set_all
  lookup-set_all k [] base = refl
  lookup-set_all k (x ∷ xs) base =
      rw (lookup-set_all k xs (set_entry x base), lookup-set_entry k x base)
        (or_else_assoc (latest k xs) _ (lookup_in k base))
