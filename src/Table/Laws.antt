-- ===== src/Table/Laws.antt =====
-- What the statements on tables do to lookups and to counts.
use stage5_browser.Base.{
  ◌+◌, ◌≤◌, ◌<◌, ◌≡◌, refl, Bool, true, false, none, some, List, [], ◌∷◌, ◌++◌, arith,
  if◌then◌else◌,
}
use stage5_browser.Table.{find, rows, update, matches, exists}

module _ {A : Type 0} (p : A → Bool) where
  pub matches-append : (xs ys : List A) → matches p (xs ++ ys) ≡ matches p xs + matches p ys
  unfolding matches
  matches-append [] ys = omega arith
  matches-append (x ∷ xs) ys = ground (arith, matches-append xs ys)

  pub matches-exists_false : (xs : List A) → exists p xs ≡ false → matches p xs ≡ 0
  unfolding matches exists
  matches-exists_false [] h = refl
  matches-exists_false (x ∷ xs) h = ground (arith, matches-exists_false xs)

  pub exists-matches_zero : (xs : List A) → matches p xs ≡ 0 → exists p xs ≡ false
  unfolding matches exists
  exists-matches_zero [] h = refl
  exists-matches_zero (x ∷ xs) h = ground (arith, exists-matches_zero xs)

  pub find-matches_zero : (xs : List A) → matches p xs ≡ 0 → find p xs ≡ none
  unfolding matches find
  find-matches_zero [] h = refl
  find-matches_zero (x ∷ xs) h = ground (arith, find-matches_zero xs)

  pub matches-find-some : (xs : List A) (a : A) → find p xs ≡ some a → 0 < matches p xs
  unfolding matches find
  matches-find-some [] a h = cc
  matches-find-some (x ∷ xs) a h = ground (arith, matches-find-some xs a)

  -- What a lookup finds satisfies its condition.
  pub find-holds : (xs : List A) (a : A) → find p xs ≡ some a → p a ≡ true
  unfolding find
  find-holds [] a h = cc
  find-holds (x ∷ xs) a h = ground (arith, find-holds xs a)

  pub find-append :
      (xs ys : List A)
      → find p (xs ++ ys) ≡ (elim (find p xs) [ none ↦ find p ys | some a ↦ some a ])
  unfolding find
  find-append [] ys = refl
  find-append (x ∷ xs) ys = ground (arith, find-append xs ys)

  pub find-append_some : (xs ys : List A) (a : A) → find p xs ≡ some a → find p (xs ++ ys) ≡ some a
  find-append_some xs ys a h = ground (arith, find-append xs ys)

  pub find-append_none : (xs ys : List A) → find p xs ≡ none → find p (xs ++ ys) ≡ find p ys
  find-append_none xs ys h = ground (arith, find-append xs ys)

  -- A row that is found counts for every condition that it fits.
  pub find-matches_positive :
      (q : A → Bool) (xs : List A) (a : A) → find p xs ≡ some a → q a ≡ true → 0 < matches q xs
  unfolding find matches
  find-matches_positive q [] a h k = cc
  find-matches_positive q (x ∷ xs) a h k = ground (arith, find-matches_positive q xs a)

  pub matches-weaken :
      (q : A → Bool) (xs : List A)
      → ((x : A) → p x ≡ true → q x ≡ true)
      → matches p xs ≤ matches q xs
  unfolding matches
  matches-weaken q [] h = omega arith
  matches-weaken q (x ∷ xs) h = ground (arith, h x, matches-weaken q xs h)

  pub find-exists_false : (xs : List A) → exists p xs ≡ false → find p xs ≡ none
  unfolding find exists
  find-exists_false [] h = refl
  find-exists_false (x ∷ xs) h = ground (arith, find-exists_false xs)

  pub exists-find-some : (xs : List A) (a : A) → find p xs ≡ some a → exists p xs ≡ true
  unfolding find exists
  exists-find-some [] a h = cc
  exists-find-some (x ∷ xs) a h = ground (arith, exists-find-some xs a)

module _ {A : Type 0} where
  -- A selection that keeps every row of a key keeps the lookup of the key.
  pub find-rows :
      (p q : A → Bool) (xs : List A)
      → ((x : A) → p x ≡ true → q x ≡ true)
      → find p (rows q xs) ≡ find p xs
  unfolding find rows
  find-rows p q [] h = refl
  find-rows p q (x ∷ xs) h = ground (arith, h x, find-rows p q xs h)

module _ {A : Type 0} (q : A → Bool) (f : A → A) where
  -- An update that keeps a condition keeps the count of the rows that fit it.
  pub matches-update_same :
      (p : A → Bool) (xs : List A)
      → ((x : A) → p (f x) ≡ p x)
      → matches p (update q f xs) ≡ matches p xs
  unfolding matches update
  matches-update_same p [] h = refl
  matches-update_same p (x ∷ xs) h = ground (arith, h x, matches-update_same p xs h)

  -- An update that fits no new row to a condition does not add to the count.
  pub matches-update_le :
      (p : A → Bool) (xs : List A)
      → ((x : A) → q x ≡ true → p (f x) ≡ true → p x ≡ true)
      → matches p (update q f xs) ≤ matches p xs
  unfolding matches update
  matches-update_le p [] h = omega arith
  matches-update_le p (x ∷ xs) h = ground (arith, h x, matches-update_le p xs h)

  -- An update of all rows that fit a condition, to rows that do not, leaves none.
  pub matches-update_all :
      (p : A → Bool) (xs : List A)
      → ((x : A) → p x ≡ true → q x ≡ true)
      → ((x : A) → q x ≡ true → p (f x) ≡ false)
      → matches p (update q f xs) ≡ 0
  unfolding matches update
  matches-update_all p [] h k = refl
  matches-update_all p (x ∷ xs) h k = ground (arith, h x, k x, matches-update_all p xs h k)

  -- No row to update.
  pub update-matches_zero : (xs : List A) → matches q xs ≡ 0 → update q f xs ≡ xs
  unfolding matches update
  update-matches_zero [] h = refl
  update-matches_zero (x ∷ xs) h = ground (arith, update-matches_zero xs)

  -- A lookup by a key that the update keeps finds the same row, updated if it fits.
  pub find-update :
      (p : A → Bool) (xs : List A)
      → ((x : A) → p (f x) ≡ p x)
      → find p (update q f xs)
        ≡ (elim (find p xs) [ none ↦ none | some x ↦ some (if q x then f x else x) ])
  unfolding find update
  find-update p [] h = refl
  find-update p (x ∷ xs) h = ground (arith, h x, find-update p xs h)

  pub find-update-some :
      (p : A → Bool) (xs : List A) (a : A)
      → ((x : A) → p (f x) ≡ p x)
      → find p xs ≡ some a
      → find p (update q f xs) ≡ some (if q a then f a else a)
  find-update-some p xs a h e = ground (arith, find-update p xs h)

  pub find-update-none :
      (p : A → Bool) (xs : List A)
      → ((x : A) → p (f x) ≡ p x)
      → find p xs ≡ none
      → find p (update q f xs) ≡ none
  find-update-none p xs h e = ground (arith, find-update p xs h)

  pub exists-update :
      (p : A → Bool) (xs : List A)
      → ((x : A) → p (f x) ≡ p x)
      → exists p (update q f xs) ≡ exists p xs
  unfolding exists update
  exists-update p [] h = refl
  exists-update p (x ∷ xs) h = ground (arith, h x, exists-update p xs h)
