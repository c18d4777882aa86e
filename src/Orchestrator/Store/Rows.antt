-- ===== src/Orchestrator/Store/Rows.antt =====
-- Counts of rows over a write.
use mergecrew.Base.{
  Bool, true, false, ◌&&◌, some, List, [], ◌∷◌, ◌≡◌, ◌≤◌, refl, ap, ◌∙◌, inl, inr, arith,
  Bool-cases, All, count_of, find, keep,
}
use mergecrew.Orchestrator.Store.{change}

module _ {A : Type 0} (p q : A → Bool) (f : A → A) where
  pub change-unmet : (xs : List A) → count_of q xs ≡ 0 → change q f xs ≡ xs
  change-unmet [] h = refl
  change-unmet (x ∷ xs) h = elim (Bool-cases (q x)) [
    | inl t ↦ absurd (omega (arith, rw t at h))
    | inr t ↦ rw t (ap (λ ys. x ∷ ys) (change-unmet xs (rw t at h)))
  ]

  -- A write after which a row meets the test only if it met it before.
  pub count_of-change-le :
      (xs : List A)
      → ((x : A) → p x ≡ false → p (f x) ≡ false)
      → count_of p (change q f xs) ≤ count_of p xs
  count_of-change-le [] h = omega arith
  count_of-change-le (x ∷ xs) h = ground (arith, h x, count_of-change-le xs h)

  -- The same where only the one row that is written is known.
  pub count_of-change-found :
      (xs : List A) (r : A)
      → find q xs ≡ some r
      → count_of q xs ≤ 1
      → (p r ≡ false → p (f r) ≡ false)
      → count_of p (change q f xs) ≤ count_of p xs
  count_of-change-found [] r e once h = cc
  count_of-change-found (x ∷ xs) r e once h = elim (Bool-cases (q x)) [
    | inl t ↦
        let alone : count_of q xs ≡ 0 = omega (arith, rw t at once) in
        let same = change-unmet xs alone in
        let here : x ≡ r = ground (arith, rw t at e) in
        rw (t, same) (ground (arith, ap p here, ap (λ y. p (f y)) here, h))
    | inr t ↦
        let later = count_of-change-found xs r (rw t at e) (rw t at once) h in
        rw t (ground (arith, later))
  ]

-- A write that keeps what the other test sees.
pub count_of-change :
    {A : Type 0} (p q : A → Bool) (f : A → A) (xs : List A)
    → ((x : A) → q x ≡ true → p (f x) ≡ p x)
    → count_of p (change q f xs) ≡ count_of p xs
count_of-change p q f [] h = refl
count_of-change p q f (x ∷ xs) h = ground (arith, h x, count_of-change p q f xs h)

-- The row that a search finds, after a write of it.
pub find-change_found :
    {A : Type 0} (p q : A → Bool) (f : A → A) (xs : List A) (r : A)
    → ((x : A) → p (f x) ≡ p x)
    → find p xs ≡ some r
    → q r ≡ true
    → find p (change (λ x. p x && q x) f xs) ≡ some (f r)
find-change_found p q f [] r h e t = cc
find-change_found p q f (x ∷ xs) r h e t = elim (Bool-cases (p x)) [
  | inl b ↦
      let here : x ≡ r = ground (arith, rw b at e) in
      let met : q x ≡ true = ap q here ∙ t in rw (b, met, h x, b) (ap (λ y. some (f y)) here)
  | inr b ↦ let later = find-change_found p q f xs r h (rw b at e) t in rw (b, b) later
]

-- A row that is found counts.
count_of-found :
    {A : Type 0} (p : A → Bool) (xs : List A) (r : A) → find p xs ≡ some r → 1 ≤ count_of p xs
count_of-found p [] r e = cc
count_of-found p (x ∷ xs) r e = elim (Bool-cases (p x)) [
  | inl b ↦ rw b (omega arith)
  | inr b ↦ rw b (count_of-found p xs r (rw b at e))
]

-- A row that a narrower search finds, where the wider one has no choice; and the other way about.
pub find-wider :
    {A : Type 0} (p q : A → Bool) (xs : List A) (r : A)
    → count_of p xs ≤ 1
    → find (λ x. p x && q x) xs ≡ some r
    → find p xs ≡ some r
find-wider p q [] r once e = cc
find-wider p q (x ∷ xs) r once e = elim (Bool-cases (p x)) [
  | inr b ↦ rw b (find-wider p q xs r (ground (arith, b)) (rw b at e))
  | inl b ↦ elim (Bool-cases (q x)) [
    | inl c ↦ rw b (rw (b, c) at e)
    | inr c ↦
        let later = find-wider p q xs r (omega (arith, rw b at once)) (rw (b, c) at e) in
        absurd (omega (arith, rw b at once, count_of-found p xs r later))
  ]
]

pub find-narrower :
    {A : Type 0} (p q : A → Bool) (xs : List A) (r : A)
    → find p xs ≡ some r
    → q r ≡ true
    → find (λ x. p x && q x) xs ≡ some r
find-narrower p q [] r e t = cc
find-narrower p q (x ∷ xs) r e t = elim (Bool-cases (p x)) [
  | inl b ↦
      let here : x ≡ r = ground (arith, rw b at e) in
      let met : q x ≡ true = ap q here ∙ t in rw (b, met) (ap some here)
  | inr b ↦ rw b (find-narrower p q xs r (rw b at e) t)
]

-- Where no row meets both tests, the rows that one of them keeps do not meet the other.
pub keep-apart :
    {A : Type 0} (q p : A → Bool) (xs : List A)
    → count_of (λ x. q x && p x) xs ≡ 0
    → All (λ x. q x ≡ false) (keep p xs)
keep-apart q p [] h = tt
keep-apart q p (x ∷ xs) h = elim (Bool-cases (p x)) [
  | inr b ↦ rw b (keep-apart q p xs (ground arith))
  | inl b ↦ elim (Bool-cases (q x)) [
    | inl c ↦ absurd (ground arith)
    | inr c ↦ rw b (c, keep-apart q p xs (ground arith))
  ]
]

pub count_of-same :
    {A : Type 0} (p q : A → Bool) (xs : List A)
    → ((x : A) → p x ≡ q x)
    → count_of p xs ≡ count_of q xs
count_of-same p q [] h = refl
count_of-same p q (x ∷ xs) h = ground (arith, h x, count_of-same p q xs h)
