-- ===== src/Table/Upserts.antt =====
-- Lookups after an INSERT … ON CONFLICT DO UPDATE.
use stage5_browser.Base.{
  ◌≡◌, refl, ◌∙◌, Bool, true, false, Option, none, some, List, [], ◌∷◌, ◌++◌, arith, Bool-cases,
  inl, inr,
}
use stage5_browser.Table.{find, exists, update, upsert}
use stage5_browser.Table.Laws.{find-append, find-append_none, find-exists_false}

-- A table of one row.
find-one : {A : Type 0} (p : A → Bool) (row : A) → p row ≡ true → find p (row ∷ []) ≡ some row
unfolding find
find-one p row h = rw h refl

find-one_other : {A : Type 0} (p : A → Bool) (row : A) → p row ≡ false → find p (row ∷ []) ≡ none
unfolding find
find-one_other p row h = rw h refl

find-append_other :
    {A : Type 0} (q : A → Bool) (xs : List A) (row : A)
    → q row ≡ false
    → find q (xs ++ row ∷ []) ≡ find q xs
find-append_other q xs row h =
    let one = find-one_other q row h in ground (arith, find-append q xs (row ∷ []), one)

find-update_other :
    {A : Type 0} (p q : A → Bool) (f : A → A) (xs : List A)
    → ((x : A) → q (f x) ≡ q x)
    → ((x : A) → q x ≡ true → p x ≡ false)
    → find q (update p f xs) ≡ find q xs
unfolding find update
find-update_other p q f [] k d = refl
find-update_other p q f (x ∷ xs) k d = ground (arith, k x, d x, find-update_other p q f xs k d)

module _ {A : Type 0} (p : A → Bool) (f : A → A) (row : A) where
  -- The row that the upsert leaves for a condition: the old one changed, or the new one.
  abbrev pub left_by : Option A → A
  left_by none = row
  left_by (some x) = f x

  find-update_found :
      (xs : List A)
      → exists p xs ≡ true
      → ((x : A) → p (f x) ≡ p x)
      → find p (update p f xs) ≡ some (left_by (find p xs))
  unfolding find exists update
  find-update_found [] h k = absurd (ground arith)
  find-update_found (x ∷ xs) h k = ground (arith, k x, find-update_found xs)

  pub find-upsert :
      (xs : List A)
      → p row ≡ true
      → ((x : A) → p (f x) ≡ p x)
      → find p (upsert p f row xs) ≡ some (left_by (find p xs))
  unfolding upsert
  find-upsert xs h k = elim (Bool-cases (exists p xs)) [
    | inl e ↦ rw e (find-update_found xs e k)
    | inr e ↦ rw e (
        rw (find-exists_false p xs e)
          (find-append_none p xs (row ∷ []) (find-exists_false p xs e) ∙ find-one p row h))
  ]

  -- A lookup of another row is not affected.
  pub find-upsert_other :
      (q : A → Bool) (xs : List A)
      → q row ≡ false
      → ((x : A) → q (f x) ≡ q x)
      → ((x : A) → q x ≡ true → p x ≡ false)
      → find q (upsert p f row xs) ≡ find q xs
  unfolding upsert
  find-upsert_other q xs h k d = elim (Bool-cases (exists p xs)) [
    | inl e ↦ rw e (find-update_other p q f xs k d)
    | inr e ↦ rw e (find-append_other q xs row h)
  ]

-- A map's `set`: the row replaces the one of its key, or is added.
module _ {A : Type 0} (p : A → Bool) (row : A) where
  find-update_all :
      (xs : List A) → exists p xs ≡ true → p row ≡ true → find p (update p (λ _. row) xs) ≡ some row
  unfolding find exists update
  find-update_all [] h k = absurd (ground arith)
  find-update_all (x ∷ xs) h k = elim (Bool-cases (p x)) [
    | inl e ↦ rw e (rw k refl)
    | inr e ↦ rw e (rw e (find-update_all xs (ground (arith, h, e)) k))
  ]

  pub find-put : (xs : List A) → p row ≡ true → find p (upsert p (λ _. row) row xs) ≡ some row
  unfolding upsert
  find-put xs k = elim (Bool-cases (exists p xs)) [
    | inl e ↦ rw e (find-update_all xs e k)
    | inr e ↦ rw e (find-append_none p xs (row ∷ []) (find-exists_false p xs e) ∙ find-one p row k)
  ]

  find-update_none :
      (q : A → Bool) (xs : List A)
      → q row ≡ false
      → ((x : A) → p x ≡ true → q x ≡ false)
      → find q (update p (λ _. row) xs) ≡ find q xs
  unfolding find update
  find-update_none q [] h d = refl
  find-update_none q (x ∷ xs) h d = elim (Bool-cases (p x)) [
    | inl e ↦ rw e (rw h (rw (d x e) (find-update_none q xs h d)))
    | inr e ↦ rw e (ground (arith, find-update_none q xs h d))
  ]

  pub find-put_other :
      (q : A → Bool) (xs : List A)
      → q row ≡ false
      → ((x : A) → p x ≡ true → q x ≡ false)
      → find q (upsert p (λ _. row) row xs) ≡ find q xs
  unfolding upsert
  find-put_other q xs h d = elim (Bool-cases (exists p xs)) [
    | inl e ↦ rw e (find-update_none q xs h d)
    | inr e ↦ rw e (find-append_other q xs row h)
  ]
