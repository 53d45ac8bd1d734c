-- ===== src/Table/Order.antt =====
-- What a stable sort leaves in order.
use stage5_browser.Base.{
  ℕ, zero, suc, ◌≤◌, ◌≡◌, inl, inr, Bool, true, false, List, [], ◌∷◌, take, All, arith, Bool-cases,
}
use stage5_browser.Table.{rows, insert_by, sort_by}

module _ {A : Type 0} (rank : A → ℕ) where
  -- No row has a rank below that of a row before it.
  abbrev pub IsRanked : List A → Type 0
  IsRanked [] = Unit {0}
  IsRanked (x ∷ xs) = All (λ y. rank x ≤ rank y) xs × IsRanked xs

  All-at_least :
      (n m : ℕ) (xs : List A) → n ≤ m → All (λ y. m ≤ rank y) xs → All (λ y. n ≤ rank y) xs
  All-at_least n m [] h k = tt
  All-at_least n m (x ∷ xs) h k = (omega (arith, h, k.0), All-at_least n m xs h k.1)

  module _ (le : A → A → Bool) (le_true : (x y : A) → le x y ≡ true → rank x ≤ rank y)
      (le_false : (x y : A) → le x y ≡ false → rank y ≤ rank x) where
    All-insert_by :
        (n : ℕ) (x : A) (xs : List A)
        → n ≤ rank x
        → All (λ y. n ≤ rank y) xs
        → All (λ y. n ≤ rank y) (insert_by le x xs)
    unfolding insert_by
    All-insert_by n x [] h k = (h, tt)
    All-insert_by n x (y ∷ ys) h k = elim (Bool-cases (le x y)) [
      | inl e ↦ rw e (h, k)
      | inr e ↦ rw e (k.0, All-insert_by n x ys h k.1)
    ]

    insert_by-IsRanked : (x : A) (xs : List A) → IsRanked xs → IsRanked (insert_by le x xs)
    unfolding insert_by
    insert_by-IsRanked x [] h = (tt, tt)
    insert_by-IsRanked x (y ∷ ys) h = elim (Bool-cases (le x y)) [
      | inl e ↦ rw e ((le_true x y e, All-at_least (rank x) (rank y) ys (le_true x y e) h.0), h)
      | inr e ↦ rw e (All-insert_by (rank y) x ys (le_false x y e) h.0, insert_by-IsRanked x ys h.1)
    ]

    pub sort_by-IsRanked : (xs : List A) → IsRanked (sort_by le xs)
    unfolding sort_by
    sort_by-IsRanked [] = tt
    sort_by-IsRanked (x ∷ xs) = insert_by-IsRanked x (sort_by le xs) (sort_by-IsRanked xs)

  All-rows : (P : A → Type 0) (p : A → Bool) (xs : List A) → All P xs → All P (rows p xs)
  unfolding rows
  All-rows P p [] h = tt
  All-rows P p (x ∷ xs) h = elim (Bool-cases (p x)) [
    | inl e ↦ rw e (h.0, All-rows P p xs h.1)
    | inr e ↦ rw e (All-rows P p xs h.1)
  ]

  pub rows-IsRanked : (p : A → Bool) (xs : List A) → IsRanked xs → IsRanked (rows p xs)
  unfolding rows
  rows-IsRanked p [] h = tt
  rows-IsRanked p (x ∷ xs) h = elim (Bool-cases (p x)) [
    | inl e ↦ rw e (All-rows (λ y. rank x ≤ rank y) p xs h.0, rows-IsRanked p xs h.1)
    | inr e ↦ rw e (rows-IsRanked p xs h.1)
  ]

  All-take : (P : A → Type 0) (n : ℕ) (xs : List A) → All P xs → All P (take n xs)
  All-take P zero xs h = tt
  All-take P (suc n) [] h = tt
  All-take P (suc n) (x ∷ xs) h = (h.0, All-take P n xs h.1)

  pub take-IsRanked : (n : ℕ) (xs : List A) → IsRanked xs → IsRanked (take n xs)
  take-IsRanked zero xs h = tt
  take-IsRanked (suc n) [] h = tt
  take-IsRanked (suc n) (x ∷ xs) h =
      (All-take (λ y. rank x ≤ rank y) n xs h.0, take-IsRanked n xs h.1)
