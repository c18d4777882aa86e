-- ===== src/Orchestrator/Store/Tables.antt =====
-- A table before and after writes that neither add nor drop rows.
use mergecrew.Base.{Bool, true, List, [], ◌∷◌, ◌≡◌, Any, here, there, Bool-cases, inl, inr}
use mergecrew.Orchestrator.Store.{change}

-- Two tables, row by row.
pub data Rows {A : Type 0} (R : A → A → Type 0) : List A → List A → Type 0 where
  no_row : Rows R [] []
  row : {x y : A} {xs ys : List A} → R x y → Rows R xs ys → Rows R (x ∷ xs) (y ∷ ys)

module _ {A : Type 0} (R : A → A → Type 0) where
  pub Rows-same : ((x : A) → R x x) → (xs : List A) → Rows R xs xs
  Rows-same r [] = no_row
  Rows-same r (x ∷ xs) = row (r x) (Rows-same r xs)

  pub Rows-change :
      (p : A → Bool) (f : A → A)
      → ((x y : A) → p y ≡ true → R x y → R x (f y))
      → {xs ys : List A} → Rows R xs ys
      → Rows R xs (change p f ys)
  Rows-change p f h no_row = no_row
  Rows-change p f h (row {x} {y} r rows) = elim (Bool-cases (p y)) [
    | inl e ↦ rw e (row (h x y e r) (Rows-change p f h rows))
    | inr e ↦ rw e (row r (Rows-change p f h rows))
  ]

  pub Rows-Any :
      {P Q : A → Type 0}
      → ((x y : A) → R x y → P x → Q y)
      → {xs ys : List A} → Rows R xs ys
      → Any P xs
      → Any Q ys
  Rows-Any h no_row a = elim a [ ]
  Rows-Any h (row {x} {y} r rows) (here p) = here (h x y r p)
  Rows-Any h (row r rows) (there a) = there (Rows-Any h rows a)
