-- ===== src/Effect/Again.antt =====
-- What a second method does in the state that a first one left when it returned: it changes nothing
-- and returns a related value. A method that is safe to retry is so related to itself.
use stage5_browser.Base.{◌≡◌, sym, subst, Bool, true, false, Option, none, some, arith}
use stage5_browser.Effect.{ok, Exec, or_throw, guard, ◌>>=◌}

pub record Again {S E A : Type 0} (Q : A → A → Type 0) (m n : Exec S E A) : Type 0 where
  pub at : (s : S) (a : A) → (m s).1 ≡ ok a → (b : A) × (n (m s).0 ≡ ((m s).0, ok b)) × Q a b

module _ {S E A : Type 0} {Q : A → A → Type 0} where
  pub Again-guard :
      (b : Bool) (e : E) (f g : Unit {0} → Exec S E A)
      → Again Q (f tt) (g tt)
      → Again Q (guard b e >>= f) (guard b e >>= g)
  unfolding ◌>>=◌
  Again-guard true e f g k = record { at = k.at }
  Again-guard false e f g k = record { at = λ s a h. absurd (ground arith) }

module _ {S E A B : Type 0} {Q : A → A → Type 0} where
  pub Again-value :
      (o : Option B) (e : E) (f g : B → Exec S E A)
      → ((c : B) → Again Q (f c) (g c))
      → Again Q (or_throw o e >>= f) (or_throw o e >>= g)
  unfolding ◌>>=◌
  Again-value (some c) e f g k = record { at = (k c).at }
  Again-value none e f g k = record { at = λ s a h. absurd (ground arith) }

  -- The value of the retry may be another one.
  pub Again-other_value :
      (o p : Option B) (d : B) (e : E) (f g : B → Exec S E A)
      → p ≡ some d
      → ((c : B) → Again Q (f c) (g d))
      → Again Q (or_throw o e >>= f) (or_throw p e >>= g)
  unfolding ◌>>=◌
  Again-other_value (some c) p d e f g q k =
      subst (λ x. Again Q (or_throw (some c) e >>= f) (or_throw x e >>= g)) (sym q)
        (record { at = (k c).at })
  Again-other_value none p d e f g q k = record { at = λ s a h. absurd (ground arith) }
