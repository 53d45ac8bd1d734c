-- ===== src/Effect/Rules.antt =====
-- Rules that follow a method along its `do` block: what it reads only, what it keeps, and when it
-- leaves the state alone because it throws.
use stage5_browser.Base.{
  ◌≡◌, refl, sym, ◌∙◌, subst, Bool, true, false, Option, none, some, if◌then◌else◌, arith,
}
use stage5_browser.Effect.{
  Outcome, ok, err, Exec, pure, throw, gets, or_throw, modify, guard, settle, transaction, continue,
  ◌>>=◌,
}

-- The method changes nothing.
pub record IsReader {S E A : Type 0} (m : Exec S E A) : Type 0 where
  pub at : (s : S) → (m s).0 ≡ s

-- The method keeps `P`, whether it returns or throws.
pub record Keeps {S E A : Type 0} (P : S → Type 0) (m : Exec S E A) : Type 0 where
  pub at : (s : S) → P s → P (m s).0

-- The method changes nothing when it throws.
pub record IsAtomic {S E A : Type 0} (m : Exec S E A) : Type 0 where
  pub at : (s : S) (e : E) → (m s).1 ≡ err e → (m s).0 ≡ s

module _ {S E A : Type 0} where
  pub IsReader-pure : (a : A) → IsReader (pure {S = S} {E = E} a)
  unfolding pure
  IsReader-pure a = record { at = λ s. refl }

  pub IsReader-throw : (e : E) → IsReader (throw {S = S} {E = E} {A = A} e)
  unfolding throw
  IsReader-throw e = record { at = λ s. refl }

  pub IsReader-gets : (f : S → A) → IsReader (gets {S = S} {E = E} f)
  unfolding gets
  IsReader-gets f = record { at = λ s. refl }

  pub IsReader-or_throw : (o : Option A) (e : E) → IsReader (or_throw {S = S} {E = E} o e)
  unfolding or_throw
  IsReader-or_throw none e = record { at = λ s. refl }
  IsReader-or_throw (some a) e = record { at = λ s. refl }

  pub IsReader-if :
      (b : Bool) (m n : Exec S E A) → IsReader m → IsReader n → IsReader (if b then m else n)
  IsReader-if true m n hm hn = hm
  IsReader-if false m n hm hn = hn

  pub IsAtomic-if :
      (b : Bool) (m n : Exec S E A) → IsAtomic m → IsAtomic n → IsAtomic (if b then m else n)
  IsAtomic-if true m n hm hn = hm
  IsAtomic-if false m n hm hn = hn

  pub IsAtomic-reader : (m : Exec S E A) → IsReader m → IsAtomic m
  IsAtomic-reader m r = record { at = λ s e h. r.at s }

  pub IsAtomic-transaction : (m : Exec S E A) → IsAtomic (transaction m)
  unfolding transaction
  IsAtomic-transaction m = record { at = λ s e h. ground arith }

module _ {S E A : Type 0} (P : S → Type 0) where
  Keeps-settle : (s s' : S) (r : Outcome E A) → P s → P s' → P (settle s s' r).0
  Keeps-settle s s' (ok a) h h' = h'
  Keeps-settle s s' (err e) h h' = h

module _ {S E A : Type 0} {P : S → Type 0} where
  pub Keeps-reader : (m : Exec S E A) → IsReader m → Keeps P m
  Keeps-reader m r = record { at = λ s h. subst P (sym (r.at s)) h }

  pub Keeps-transaction : (m : Exec S E A) → Keeps P m → Keeps P (transaction m)
  unfolding transaction
  Keeps-transaction m k = record { at = λ s h. Keeps-settle P s (m s).0 (m s).1 h (k.at s h) }

module _ {S E : Type 0} where
  pub IsReader-guard : (b : Bool) (e : E) → IsReader (guard {S = S} b e)
  unfolding guard
  IsReader-guard true e = record { at = λ s. refl }
  IsReader-guard false e = record { at = λ s. refl }

  pub IsAtomic-modify : (f : S → S) → IsAtomic (modify {E = E} f)
  unfolding modify
  IsAtomic-modify f = record { at = λ s e h. cc }

  pub Keeps-modify :
      {P : S → Type 0} (f : S → S) → ((s : S) → P s → P (f s)) → Keeps P (modify {E = E} f)
  unfolding modify
  Keeps-modify f k = record { at = k }

module _ {S E A B : Type 0} where
  IsReader-continue :
      (r : Outcome E A) (f : A → Exec S E B)
      → ((a : A) → IsReader (f a))
      → (s : S) → (continue r f s).0 ≡ s
  IsReader-continue (ok a) f h s = (h a).at s
  IsReader-continue (err e) f h s = refl

  pub IsReader-bind :
      (m : Exec S E A) (f : A → Exec S E B)
      → IsReader m
      → ((a : A) → IsReader (f a))
      → IsReader (m >>= f)
  unfolding ◌>>=◌
  IsReader-bind m f hm hf = record { at = λ s. IsReader-continue (m s).1 f hf (m s).0 ∙ hm.at s }

  IsAtomic-continue :
      (r : Outcome E A) (f : A → Exec S E B)
      → ((a : A) → IsAtomic (f a))
      → (s : S) (e : E) → (continue r f s).1 ≡ err e
      → (continue r f s).0 ≡ s
  IsAtomic-continue (ok a) f h s e q = (h a).at s e q
  IsAtomic-continue (err x) f h s e q = refl

  -- Reads come first: a throw after a write is not covered, unless a transaction is round both.
  pub IsAtomic-bind :
      (m : Exec S E A) (f : A → Exec S E B)
      → IsReader m
      → ((a : A) → IsAtomic (f a))
      → IsAtomic (m >>= f)
  unfolding ◌>>=◌
  IsAtomic-bind m f hm hf = record {
    at = λ s e h. IsAtomic-continue (m s).1 f hf (m s).0 e h ∙ hm.at s;
  }

module _ {S E A B : Type 0} where
  -- What follows cannot throw.
  IsAtomic-continue_map :
      (r : Outcome E A) (f : A → B) (s t : S) (e : E)
      → (r ≡ err e → t ≡ s)
      → (continue r (λ a. pure (f a)) t).1 ≡ err e
      → (continue r (λ a. pure (f a)) t).0 ≡ s
  unfolding pure
  IsAtomic-continue_map (ok a) f s t e h q = absurd (ground arith)
  IsAtomic-continue_map (err x) f s t e h q = h (ground arith)

  pub IsAtomic-map : (m : Exec S E A) (f : A → B) → IsAtomic m → IsAtomic (m >>= λ a. pure (f a))
  unfolding ◌>>=◌
  IsAtomic-map m f hm = record {
    at = λ s e h. IsAtomic-continue_map (m s).1 f s (m s).0 e (hm.at s e) h;
  }

module _ {S E A B : Type 0} {P : S → Type 0} where
  Keeps-continue :
      (r : Outcome E A) (f : A → Exec S E B)
      → ((a : A) → Keeps P (f a))
      → (s : S) → P s
      → P (continue r f s).0
  Keeps-continue (ok a) f h s p = (h a).at s p
  Keeps-continue (err e) f h s p = p

  pub Keeps-bind :
      (m : Exec S E A) (f : A → Exec S E B)
      → Keeps P m
      → ((a : A) → Keeps P (f a))
      → Keeps P (m >>= f)
  unfolding ◌>>=◌
  Keeps-bind m f hm hf = record { at = λ s h. Keeps-continue (m s).1 f hf (m s).0 (hm.at s h) }

module _ {S E B : Type 0} {P : S → Type 0} where
  -- After a test the rest may use that it held.
  pub Keeps-guard :
      (b : Bool) (e : E) (f : Unit {0} → Exec S E B)
      → (b ≡ true → Keeps P (f tt))
      → Keeps P (guard b e >>= f)
  unfolding ◌>>=◌
  Keeps-guard true e f h = record { at = λ s p. (h refl).at s p }
  Keeps-guard false e f h = record { at = λ s p. p }

pub ruleset reader_rules = (
  IsReader-pure, IsReader-throw, IsReader-gets, IsReader-or_throw, IsReader-guard, IsReader-if,
  IsReader-bind,
)

module _ {S E A : Type 0} {P : S → Type 0} where
  pub Keeps-throw : (e : E) → Keeps P (throw {A = A} e)
  unfolding throw
  Keeps-throw e = record { at = λ state p. p }

  pub Keeps-pure : (a : A) → Keeps P (pure {E = E} a)
  unfolding pure
  Keeps-pure a = record { at = λ state p. p }

  pub Keeps-gets : (f : S → A) → Keeps P (gets {E = E} f)
  unfolding gets
  Keeps-gets f = record { at = λ state p. p }

  pub Keeps-or_throw : (o : Option A) (e : E) → Keeps P (or_throw o e)
  unfolding or_throw
  Keeps-or_throw none e = record { at = λ s h. h }
  Keeps-or_throw (some a) e = record { at = λ s h. h }

  -- A transaction is judged by the states in which it commits.
  pub Keeps-commit :
      (m : Exec S E A)
      → ((s : S) (a : A) → P s → (m s).1 ≡ ok a → P (m s).0)
      → Keeps P (transaction m)
  unfolding transaction
  Keeps-commit m h = record { at = λ s p. settled s (m s).0 (m s).1 p (λ a e. h s a p e) }
    where
      settled :
          (s s' : S) (r : Outcome E A) → P s → ((a : A) → r ≡ ok a → P s') → P (settle s s' r).0
      settled s s' (ok a) p k = k a refl
      settled s s' (err e) p k = p

module _ {S E : Type 0} {P : S → Type 0} where
  pub Keeps-test : (b : Bool) (e : E) → Keeps P (guard b e)
  unfolding guard
  Keeps-test true e = record { at = λ s h. h }
  Keeps-test false e = record { at = λ s h. h }

pub ruleset keeps_rules =
    (Keeps-pure, Keeps-throw, Keeps-gets, Keeps-or_throw, Keeps-test, Keeps-bind)
