-- ===== src/Effect/Ensures.antt =====
-- What a method that returns has done: a relation of the state before, the result and the state
-- after. The checks that a method begins with change nothing, so the relation is that of the rest.
use stage5_browser.Base.{Option, none, some, ◌⊎◌, inl, inr, ◌≡◌, refl, sym, subst, arith}
use stage5_browser.Effect.{
  Outcome, ok, err, Exec, pure, or_throw, settle, transaction, continue, ◌>>=◌,
}
use stage5_browser.Effect.Rules.{IsReader}

pub record Ensures {S E A : Type 0} (Q : S → A → S → Type 0) (m : Exec S E A) : Type 0 where
  pub at : (s : S) (a : A) → (m s).1 ≡ ok a → Q s a (m s).0

-- What a method that throws has done.
pub record Fails {S E A : Type 0} (Q : S → E → S → Type 0) (m : Exec S E A) : Type 0 where
  pub at : (s : S) (e : E) → (m s).1 ≡ err e → Q s e (m s).0

module _ {S E A B : Type 0} (Q : S → E → S → Type 0) where
  Fails-continue :
      (r : Outcome E A) (f : A → Exec S E B) (s t : S) (e : E)
      → t ≡ s
      → Q s e s
      → (continue r f t).1 ≡ err e
      → ((a : A) → r ≡ ok a → (f a s).1 ≡ err e → Q s e (f a s).0)
      → Q s e (continue r f t).0
  Fails-continue (ok a) f s t e h q h' k =
      subst (λ x. (f a x).1 ≡ err e → Q s e (f a x).0) (sym h) (k a refl) h'
  Fails-continue (err x) f s t e h q h' k = subst (Q s e) (sym h) q

module _ {S E A B : Type 0} {Q : S → E → S → Type 0} where
  -- After a read, with what is known of the value that it returned.
  pub Fails-known :
      (m : Exec S E A) (f : A → Exec S E B)
      → IsReader m
      → ((s : S) (e : E) → Q s e s)
      → ((s : S) (a : A) (e : E) → (m s).1 ≡ ok a → (f a s).1 ≡ err e → Q s e (f a s).0)
      → Fails Q (m >>= f)
  unfolding ◌>>=◌
  Fails-known m f r q k = record {
    at = λ s e h.
        Fails-continue Q (m s).1 f s (m s).0 e (r.at s) (q s e) h (λ a h' h''. k s a e h' h'');
  }

  pub Fails-read :
      (m : Exec S E A) (f : A → Exec S E B)
      → IsReader m
      → ((s : S) (e : E) → Q s e s)
      → ((a : A) → Fails Q (f a))
      → Fails Q (m >>= f)
  Fails-read m f r q k = Fails-known m f r q (λ s a e h. (k a).at s e)

module _ {S E A B : Type 0} (Q : S → E → S → Type 0) where
  Fails-continue_map :
      (r : Outcome E A) (f : A → B) (s t : S) (e : E)
      → (r ≡ err e → Q s e t)
      → (continue r (λ a. pure (f a)) t).1 ≡ err e
      → Q s e (continue r (λ a. pure (f a)) t).0
  unfolding pure
  Fails-continue_map (ok a) f s t e h q = absurd (ground arith)
  Fails-continue_map (err x) f s t e h q = h (ground arith)

module _ {S E A B : Type 0} {Q : S → E → S → Type 0} where
  pub Fails-map : (m : Exec S E A) (f : A → B) → Fails Q m → Fails Q (m >>= λ a. pure (f a))
  unfolding ◌>>=◌
  Fails-map m f hm = record {
    at = λ s e h. Fails-continue_map Q (m s).1 f s (m s).0 e (hm.at s e) h;
  }

module _ {S E A B : Type 0} (Q : S → B → S → Type 0) where
  Ensures-continue :
      (r : Outcome E A) (f : A → Exec S E B) (s t : S) (b : B)
      → t ≡ s
      → (continue r f t).1 ≡ ok b
      → ((a : A) → r ≡ ok a → (f a s).1 ≡ ok b → Q s b (f a s).0)
      → Q s b (continue r f t).0
  Ensures-continue (ok a) f s t b e h k =
      subst (λ x. (f a x).1 ≡ ok b → Q s b (f a x).0) (sym e) (k a refl) h
  Ensures-continue (err x) f s t b e h k = absurd (ground arith)

module _ {S E A : Type 0} (Q : S → A → S → Type 0) where
  Ensures-settle :
      (s s' : S) (r : Outcome E A) (a : A)
      → (settle s s' r).1 ≡ ok a
      → (r ≡ ok a → Q s a s')
      → Q s a (settle s s' r).0
  Ensures-settle s s' (ok b) a h k = k h
  Ensures-settle s s' (err e) a h k = absurd (ground arith)

module _ {S E A B : Type 0} {Q : S → B → S → Type 0} where
  -- After a read, with what is known of the value that it returned.
  pub Ensures-known :
      (m : Exec S E A) (f : A → Exec S E B)
      → IsReader m
      → ((s : S) (a : A) (b : B) → (m s).1 ≡ ok a → (f a s).1 ≡ ok b → Q s b (f a s).0)
      → Ensures Q (m >>= f)
  unfolding ◌>>=◌
  Ensures-known m f r k = record {
    at = λ s b h. Ensures-continue Q (m s).1 f s (m s).0 b (r.at s) h (λ a e h'. k s a b e h');
  }

  pub Ensures-read :
      (m : Exec S E A) (f : A → Exec S E B)
      → IsReader m
      → ((a : A) → Ensures Q (f a))
      → Ensures Q (m >>= f)
  Ensures-read m f r k = Ensures-known m f r (λ s a b e h. (k a).at s b h)

module _ {S E A : Type 0} {Q : S → A → S → Type 0} where
  pub Ensures-transaction : (m : Exec S E A) → Ensures Q m → Ensures Q (transaction m)
  unfolding transaction
  Ensures-transaction m k = record {
    at = λ s a h. Ensures-settle Q s (m s).0 (m s).1 a h (k.at s a);
  }

module _ {S E A B : Type 0} where
  continue-pure :
      (r : Outcome E A) (c b : B) (t : S)
      → (continue r (λ _. pure {E = E} c) t).1 ≡ ok b
      → (b ≡ c) × ((continue r (λ _. pure {E = E} c) t).0 ≡ t)
  unfolding pure
  continue-pure (ok a) c b t h = (ground arith, refl)
  continue-pure (err e) c b t h = absurd (ground arith)

  -- A method that ends with a value returns that value, in the state before it.
  pub then_pure :
      (m : Exec S E A) (c b : B) (s : S)
      → ((m >>= λ _. pure c) s).1 ≡ ok b
      → (b ≡ c) × (((m >>= λ _. pure c) s).0 ≡ (m s).0)
  unfolding ◌>>=◌
  then_pure m c b s h = continue-pure (m s).1 c b (m s).0 h

module _ {E A : Type 0} where
  pub Outcome-cases : (r : Outcome E A) → ((a : A) × (r ≡ ok a)) ⊎ ((e : E) × (r ≡ err e))
  Outcome-cases (ok a) = inl (a, refl)
  Outcome-cases (err e) = inr (e, refl)

module _ {S E A : Type 0} where
  -- A method that changes nothing returns or throws in the state that it started in.
  pub reader_cases :
      (m : Exec S E A) (s : S)
      → IsReader m
      → ((a : A) × (m s ≡ (s, ok a))) ⊎ ((e : E) × (m s ≡ (s, err e)))
  reader_cases m s k = elim (Outcome-cases (m s).1) [
    | inl (a, h) ↦ inl (a, λ j. (k.at s j, h j))
    | inr (e, h) ↦ inr (e, λ j. (k.at s j, h j))
  ]

  pub transaction_commits :
      (m : Exec S E A) (s t : S) (a : A) → m s ≡ (t, ok a) → transaction m s ≡ (t, ok a)
  unfolding transaction
  transaction_commits m s t a h = rw h refl

  pub transaction_rolls_back :
      (m : Exec S E A) (s : S) (e : E) → (m s).1 ≡ err e → transaction m s ≡ (s, err e)
  unfolding transaction
  transaction_rolls_back m s e h = rw h refl

module _ {S E A B : Type 0} {Q : S → B → S → Type 0} where
  -- After a value that must be there.
  pub Ensures-value :
      (o : Option A) (e : E) (f : A → Exec S E B)
      → ((c : A) → o ≡ some c → Ensures Q (f c))
      → Ensures Q (or_throw o e >>= f)
  unfolding ◌>>=◌
  Ensures-value (some c) e f k = record { at = (k c refl).at }
  Ensures-value none e f k = record { at = λ s b h. absurd (ground arith) }

module _ {S E A B : Type 0} where
  -- Where a method goes: into its rest, or out with the error of its first part.
  pub bind_cases :
      (m : Exec S E A) (f : A → Exec S E B) (s : S)
      → ((a : A) × ((m s).1 ≡ ok a) × ((m >>= f) s ≡ f a (m s).0))
        ⊎ ((e : E) × ((m s).1 ≡ err e) × ((m >>= f) s ≡ ((m s).0, err e)))
  unfolding ◌>>=◌
  bind_cases m f s = elim (Outcome-cases (m s).1) [
    | inl (a, h) ↦ inl (a, h, rw h refl)
    | inr (e, h) ↦ inr (e, h, rw h refl)
  ]

module _ {S E A B : Type 0} {Q : B → S → Type 0} where
  -- What the last step ensures of the state that it leaves, the whole method does.
  pub Ensures-last :
      (m : Exec S E A) (f : A → Exec S E B)
      → ((a : A) → Ensures (λ s b s'. Q b s') (f a))
      → Ensures (λ s b s'. Q b s') (m >>= f)
  Ensures-last m f k = record {
    at = λ s b h. elim (bind_cases m f s) [
      | inl (a, g, q) ↦ subst (λ x. x.1 ≡ ok b → Q b x.0) (sym q) ((k a).at (m s).0 b) h
      | inr (e, g, q) ↦ absurd (ground (arith, q))
    ];
  }
