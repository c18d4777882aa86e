-- ===== src/Exec.antt =====
-- Handlers of a service that keep their state in a database: a handler is a function from the state to
-- a result and the state that it leaves. What was written before an exception stays written.
pub mod Preserves
pub mod Loops
use mergecrew.Base.{String, List, [], ◌∷◌}

-- `not_found` is the exception of an `update` whose row does not exist; `forbidden` and `invalid` are
-- those of packages/domain/src/errors.ts.
pub data Failure : Type 0 where
  not_found : Failure
  missing_config : Failure
  forbidden : String → Failure
  invalid : String → Failure

pub data Result {ℓ} (A : Type ℓ) : Type ℓ where
  ok : A → Result A
  raised : Failure → Result A

abbrev pub Exec : Type 0 → Type 0 → Type 0
Exec S A = S → Result A × S

-- Handlers that write nothing: a read of the state, an exception, a value.
module _ {Db Answer : Type 0} where
  unfoldable pub gets : (Db → Answer) → Exec Db Answer
  gets read db = (ok (read db), db)

  unfoldable pub raise : Failure → Exec Db Answer
  raise failure db = (raised failure, db)

  unfoldable pub pure : Answer → Exec Db Answer
  pure answer db = (ok answer, db)

module _ {Db First Second : Type 0} where
  -- An exception skips the rest of the handler.
  abbrev pub proceed : Result First → (First → Exec Db Second) → Exec Db Second
  proceed (raised failure) next db = (raised failure, db)
  proceed (ok answer) next db = next answer db

  infixl 10 ◌>>=◌ ◌>>◌
  unfoldable pub ◌>>=◌ : Exec Db First → (First → Exec Db Second) → Exec Db Second
  unfolding gets raise pure
  ◌>>=◌ handler next db = let (outcome, written) = handler db in proceed outcome next written

  abbrev pub ◌>>◌ : Exec Db First → Exec Db Second → Exec Db Second
  handler >> rest = handler >>= λ answer. rest

module _ {S A : Type 0} where
  -- `for (const x of xs) await f(x)`
  unfoldable pub for_each : List A → (A → Exec S Unit) → Exec S Unit
  unfolding ◌>>=◌
  for_each [] f = pure tt
  for_each (x ∷ xs) f = f x >> for_each xs f
