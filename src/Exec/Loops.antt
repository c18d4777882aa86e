-- ===== src/Exec/Loops.antt =====
-- Loops whose body succeeds each time.
use mergecrew.Base.{List, [], ◌∷◌, ◌≡◌, sym, subst, All, Any, here, there}
use mergecrew.Exec.{Exec, ok, pure, ◌>>=◌, for_each}

-- A loop whose body succeeds and keeps `I`; after the item `s` it has reached `N`, and keeps that.
module _ {X : Type 0} {S : Type 0} (f : X → Exec S Unit) where
  abbrev pub IsStep : (S → Type 0) → X → Type 0
  IsStep I x = (m : S) → I m → ((f x m).0 ≡ ok tt) × I (f x m).1

  pub for_each-keeps :
      (I : S → Type 0) (xs : List X) → All (IsStep I) xs → (m : S) → I m → I (for_each xs f m).1
  unfolding for_each ◌>>=◌ pure
  for_each-keeps I [] h m v = v
  for_each-keeps I (x ∷ xs) (p, h) m v =
      let (fine, w) = p m v in rw fine (for_each-keeps I xs h (f x m).1 w)

  both_kept :
      (I N : S → Type 0) (xs : List X)
      → All (IsStep I) xs
      → All (λ x. (m : S) → I m → N m → N (f x m).1) xs
      → All (IsStep (λ m. I m × N m)) xs
  both_kept I N [] h ks = tt
  both_kept I N (x ∷ xs) (p, h) (k, ks) =
      (λ m v. ((p m v.0).0, ((p m v.0).1, k m v.0 v.1)), both_kept I N xs h ks)

  pub for_each-reaches :
      (I N : S → Type 0) (s : X) (xs : List X)
      → Any (λ x. x ≡ s) xs
      → All (IsStep I) xs
      → All (λ x. (m : S) → I m → N m → N (f x m).1) xs
      → ((m : S) → I m → N (f s m).1)
      → (m : S) → I m
      → N (for_each xs f m).1
  unfolding for_each ◌>>=◌ pure
  for_each-reaches I N s [] a h ks r m v = elim a [ ]
  for_each-reaches I N s (x ∷ xs) (here e) (p, h) (k, ks) r m v =
      let (fine, w) = p m v in
      let reached = subst (λ y. N (f y m).1) (sym e) (r m v) in
      rw fine (for_each-keeps (λ n. I n × N n) xs (both_kept I N xs h ks) (f x m).1 (w, reached)).1
  for_each-reaches I N s (x ∷ xs) (there a) (p, h) (k, ks) r m v =
      let (fine, w) = p m v in rw fine (for_each-reaches I N s xs a h ks r (f x m).1 w)
