-- ===== src/Exec/Preserves.antt =====
-- Invariants of handlers: what a predicate of the state needs so that a handler cannot leave it.
use mergecrew.Base.{Bool, true, false, if◌then◌else◌, List, [], ◌∷◌, ◌≡◌, refl, sym, subst}
use mergecrew.Exec.{Exec, Result, ok, raised, Failure, pure, raise, gets, proceed, ◌>>=◌, for_each}

-- From a state that satisfies `Inv` the handler leads to one that does, also where it raises.
pub record Preserves {ℓ} {S A : Type 0} (Inv : S → Type ℓ) (act : Exec S A) : Type ℓ where
  pub after : (before : S) → Inv before → Inv (act before).1

module _ {ℓ} {S : Type 0} {Inv : S → Type ℓ} where
  -- Sequencing: what comes second is asked only for the results of what comes first.
  continue :
      {A B : Type 0} (next : A → Exec S B)
      → ((x : A) → Preserves Inv (next x))
      → (outcome : Result A) (middle : S) → Inv middle
      → Inv (proceed outcome next middle).1
  continue next each (raised failure) middle inv = inv
  continue next each (ok x) middle inv = (each x).after middle inv

  pub Preserves-bind :
      {A B : Type 0} (first : Exec S A) (next : A → Exec S B)
      → Preserves Inv first
      → ((x : A) → Preserves Inv (next x))
      → Preserves Inv (first >>= next)
  unfolding ◌>>=◌
  Preserves-bind first next start each = record {
    after = λ before inv.
        let (outcome, middle) = first before in
        continue next each outcome middle (start.after before inv);
  }

  -- A handler that writes nothing preserves everything.
  quiet-Preserves :
      {A : Type 0} (act : Exec S A) → ((before : S) → (act before).1 ≡ before) → Preserves Inv act
  quiet-Preserves act quiet = record { after = λ before inv. subst Inv (sym (quiet before)) inv }

  pub Preserves-gets : {A : Type 0} (read : S → A) → Preserves Inv (gets read)
  unfolding gets
  Preserves-gets read = quiet-Preserves (gets read) (λ before. refl)

  pub Preserves-raise :
      {A : Type 0} (failure : Failure) → Preserves Inv (raise {Answer = A} failure)
  unfolding raise
  Preserves-raise failure = quiet-Preserves (raise failure) (λ before. refl)

  pub Preserves-pure : {A : Type 0} (x : A) → Preserves Inv (pure x)
  unfolding pure
  Preserves-pure x = quiet-Preserves (pure x) (λ before. refl)

  pub Preserves-if :
      {A : Type 0} (test : Bool) (then_act else_act : Exec S A)
      → Preserves Inv then_act
      → Preserves Inv else_act
      → Preserves Inv (if test then then_act else else_act)
  Preserves-if false then_act else_act on_yes on_no = on_no
  Preserves-if true then_act else_act on_yes on_no = on_yes

  pub Preserves-for_each :
      {A : Type 0} (items : List A) (body : A → Exec S Unit)
      → ((x : A) → Preserves Inv (body x))
      → Preserves Inv (for_each items body)
  unfolding for_each
  Preserves-for_each [] body each = Preserves-pure tt
  Preserves-for_each (x ∷ items) body each =
      Preserves-bind (body x) _ (each x) (λ _. Preserves-for_each items body each)
