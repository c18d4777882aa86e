-- ===== src/Orchestrator/Store/Ids.antt =====
-- Ids of rows: given once, and below the next one.
use mergecrew.Base.{
  ℕ, ◌+◌, ◌≤◌, ◌<◌, Bool, true, ◌==◌, List, [], ◌∷◌, ◌++◌, ◌≡◌, refl, arith, Bool-cases, inl, inr,
  All, All-map, All-append, count_of, count_of-append,
}
use mergecrew.Orchestrator.Store.{change}
use mergecrew.Orchestrator.Store.Rows.{count_of-change}

module _ {A : Type 0} (id : A → ℕ) where
  abbrev pub has_id : ℕ → A → Bool
  has_id i x = id x == i

  pub record IsFresh (next : ℕ) (xs : List A) : Type 0 where
    pub below : All (λ x. id x < next) xs
    pub unique : (i : ℕ) → count_of (has_id i) xs ≤ 1

  pub fresh-later : (n m : ℕ) (xs : List A) → n ≤ m → IsFresh n xs → IsFresh m xs
  fresh-later n m xs le v = record {
    below = All-map (λ x lt. omega arith) xs v.below;
    unique = v.unique;
  }

  change-below :
      (n : ℕ) (p : A → Bool) (f : A → A) (xs : List A)
      → ((x : A) → p x ≡ true → id (f x) ≡ id x)
      → All (λ x. id x < n) xs
      → All (λ x. id x < n) (change p f xs)
  change-below n p f [] h b = tt
  change-below n p f (x ∷ xs) h (lt, b) = elim (Bool-cases (p x)) [
    | inl q ↦ rw q (omega (arith, h x q), change-below n p f xs h b)
    | inr q ↦ rw q (lt, change-below n p f xs h b)
  ]

  pub fresh-change :
      (n : ℕ) (p : A → Bool) (f : A → A) (xs : List A)
      → ((x : A) → p x ≡ true → id (f x) ≡ id x)
      → IsFresh n xs
      → IsFresh n (change p f xs)
  fresh-change n p f xs h v = record {
    below = change-below n p f xs h v.below;
    unique =
        λ i. omega (arith, v.unique i, count_of-change (has_id i) p f xs (λ x q. rw (h x q) refl));
  }

  unused : (n i : ℕ) (xs : List A) → All (λ x. id x < n) xs → n ≤ i → count_of (has_id i) xs ≡ 0
  unused n i [] h le = refl
  unused n i (x ∷ xs) (lt, h) le = ground (arith, unused n i xs h le)

  new_unique :
      (n i : ℕ) (new : A) (xs : List A)
      → IsFresh n xs
      → id new ≡ n
      → count_of (has_id i) (xs ++ (new ∷ [])) ≤ 1
  new_unique n i new xs v e =
      let appended = count_of-append (has_id i) xs (new ∷ []) in
      elim (Bool-cases (id new == i)) [
        | inl q ↦ ground (arith, appended, unused n i xs v.below (ground arith))
        | inr q ↦ ground (arith, appended, v.unique i)
      ]

  pub fresh-append :
      (n : ℕ) (new : A) (xs : List A)
      → IsFresh n xs
      → id new ≡ n
      → IsFresh (n + 1) (xs ++ (new ∷ []))
  fresh-append n new xs v e =
      let later = fresh-later n (n + 1) xs (omega arith) v in
      record {
        below = All-append (λ x. id x < n + 1) xs later.below (omega (arith, e));
        unique = λ i. new_unique n i new xs v e;
      }
