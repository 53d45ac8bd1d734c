-- ===== src/Effect.antt =====
-- Methods that mutate an object and may throw. What a method wrote before it threw stays written,
-- so the state comes back beside the error too; only `transaction` puts it back.
pub mod Rules
pub mod Ensures
pub mod Again
use stage5_browser.Base.{◌≡◌, refl, Option, none, some, Bool, true, false}

pub data Outcome (E A : Type 0) : Type 0 where
  ok : A → Outcome E A
  err : E → Outcome E A

abbrev pub Exec : Type 0 → Type 0 → Type 0 → Type 0
Exec S E A = S → S × Outcome E A

module _ {S E A : Type 0} where
  pub pure : A → Exec S E A
  pure a s = (s, ok a)

  pub throw : E → Exec S E A
  throw e s = (s, err e)

  pub gets : (S → A) → Exec S E A
  gets f s = (s, ok (f s))

  -- `x ?? throw`: the value of a query that must have a row.
  pub or_throw : Option A → E → Exec S E A
  or_throw none e s = (s, err e)
  or_throw (some a) e s = (s, ok a)

  -- BEGIN; operation; COMMIT, or ROLLBACK and rethrow.
  abbrev pub settle : S → S → Outcome E A → S × Outcome E A
  settle s s' (ok a) = (s', ok a)
  settle s s' (err e) = (s, err e)

  unfoldable pub transaction : Exec S E A → Exec S E A
  transaction m s = settle s (m s).0 (m s).1

module _ {S E : Type 0} where
  pub modify : (S → S) → Exec S E (Unit {0})
  modify f s = (f s, ok tt)

  -- `if (!test) throw e`
  pub guard : Bool → E → Exec S E (Unit {0})
  guard true e s = (s, ok tt)
  guard false e s = (s, err e)

module _ {S E A B : Type 0} where
  abbrev pub continue : Outcome E A → (A → Exec S E B) → Exec S E B
  continue (ok a) f s = f a s
  continue (err e) f s = (s, err e)

  infixl 10 ◌>>=◌ ◌>>◌
  unfoldable pub ◌>>=◌ : Exec S E A → (A → Exec S E B) → Exec S E B
  unfolding pure throw gets or_throw modify guard
  ◌>>=◌ m f s = let (s', r) = m s in continue r f s'

  abbrev pub ◌>>◌ : Exec S E A → Exec S E B → Exec S E B
  m >> n = m >>= λ _. n

module _ {S E A : Type 0} where
  -- `try { m } catch`: what was thrown is a value, and what was written stays.
  unfoldable pub attempt : Exec S E A → Exec S E (Outcome E A)
  attempt m s = ((m s).0, ok (m s).1)
