-- ===== src/Table.antt =====
-- Tables as lists of rows, and the statements that the program makes on them.
pub mod Laws
pub mod Upserts
pub mod Order
use stage5_browser.Base.{
  ℕ, zero, suc, ◌+◌, ◌≤◌, ◌<◌, ◌≡◌, refl, ap, ◌⊎◌, inl, inr, Bool, true, false, not, ◌&&◌, Option,
  none, some, List, [], ◌∷◌, ◌++◌, arith, leb, if◌then◌else◌, length, All, Bool-cases,
}

module _ {A : Type 0} where
  -- SELECT … WHERE …, its first row.
  unfoldable pub find : (A → Bool) → List A → Option A
  find p [] = none
  find p (x ∷ xs) = if p x then some x else find p xs

  -- SELECT … WHERE …
  unfoldable pub rows : (A → Bool) → List A → List A
  rows p [] = []
  rows p (x ∷ xs) = if p x then x ∷ rows p xs else rows p xs

  -- UPDATE … SET … WHERE …
  unfoldable pub update : (A → Bool) → (A → A) → List A → List A
  update p f [] = []
  update p f (x ∷ xs) = (if p x then f x else x) ∷ update p f xs

  -- The number of rows that a WHERE clause fits: `changes` of an UPDATE.
  unfoldable pub matches : (A → Bool) → List A → ℕ
  matches p [] = 0
  matches p (x ∷ xs) = if p x then suc (matches p xs) else matches p xs

  unfoldable pub exists : (A → Bool) → List A → Bool
  exists p [] = false
  exists p (x ∷ xs) = if p x then true else exists p xs

  -- ORDER BY, stable.
  insert_by : (A → A → Bool) → A → List A → List A
  insert_by le x [] = x ∷ []
  insert_by le x (y ∷ ys) = if le x y then x ∷ y ∷ ys else y ∷ insert_by le x ys

  unfoldable pub sort_by : (A → A → Bool) → List A → List A
  unfolding insert_by
  sort_by le [] = []
  sort_by le (x ∷ xs) = insert_by le x (sort_by le xs)

  -- INSERT … ON CONFLICT DO UPDATE: the row that conflicts is changed, else one is added.
  unfoldable pub upsert : (A → Bool) → (A → A) → A → List A → List A
  unfolding exists update
  upsert p f row xs = if exists p xs then update p f xs else xs ++ row ∷ []
