-- ===== src/Protocol/Moves/Listing.antt =====
-- The list of moves of src/protocol/available-moves.ts: its counts and its order.
use stage5_browser.Base.{ℕ, ◌≤◌, ◌≡◌, refl, inl, inr, true, false, ltb, arith, Bool-cases}
use stage5_browser.Text.{Text}
use stage5_browser.Table.Order.{IsRanked, sort_by-IsRanked, rows-IsRanked, take-IsRanked}
use stage5_browser.Protocol.Contracts.{all_commands}
use stage5_browser.Table.{rows}
use stage5_browser.Protocol.Moves.{
  Availability, available, needs_preparation, blocked, MoveContext, MovesInput, AvailableMove,
}
use stage5_browser.Protocol.Moves.Derive.{
  Comparison, or_else, compare_numbers, availability_rank, compare_moves, is_not_after,
  sorted_moves, moves_of, is_visible, derive_available_moves,
}

-- The place of a move in the list: available moves, then those that need preparation, then blocked ones.
abbrev pub place : Availability → ℕ
place available = 0
place needs_preparation = 1
place blocked = 2

rank-place : (a : Availability) → availability_rank a ≡ place a
rank-place available = refl
rank-place needs_preparation = refl
rank-place blocked = refl

abbrev pub rank : AvailableMove → ℕ
rank m = place m.availability

abbrev key : AvailableMove → ℕ
key m = availability_rank m.availability

module _ (collate : Text → Text → Comparison) where
  not_after-key :
      (l r : AvailableMove) → is_not_after (compare_moves collate l r) ≡ true → key l ≤ key r
  unfolding compare_moves compare_numbers or_else
  not_after-key l r h = elim (Bool-cases (ltb (key r) (key l))) [
    | inl e ↦
        let f : ltb (key l) (key r) ≡ false = ground (arith, e) in
        let q : is_not_after (compare_moves collate l r) ≡ false = rw f (rw e refl) in
        absurd (ground (arith, q))
    | inr e ↦ ground (arith, e)
  ]

  after-key :
      (l r : AvailableMove) → is_not_after (compare_moves collate l r) ≡ false → key r ≤ key l
  unfolding compare_moves compare_numbers or_else
  after-key l r h = elim (Bool-cases (ltb (key l) (key r))) [
    | inl e ↦
        let q : is_not_after (compare_moves collate l r) ≡ true = rw e refl in
        absurd (ground (arith, q))
    | inr e ↦ ground (arith, e)
  ]

  -- The moves that are returned stand in this order, whatever the order of texts is: the available ones
  -- first, then those that need preparation, then the blocked ones.
  pub derive_available_moves-IsRanked :
      (c : MoveContext) (i : MovesInput) → IsRanked rank (derive_available_moves collate c i).moves
  unfolding derive_available_moves sorted_moves
  derive_available_moves-IsRanked c i =
      take-IsRanked rank i.max_moves (rows (is_visible i) (sorted_moves collate c)) (
        rows-IsRanked rank (is_visible i) (sorted_moves collate c) (
          sort_by-IsRanked rank (λ l r. is_not_after (compare_moves collate l r))
            (λ l r h.
              omega
                (arith, not_after-key l r h, rank-place l.availability, rank-place r.availability))
            (λ l r h.
              omega (arith, after-key l r h, rank-place l.availability, rank-place r.availability))
            (moves_of c all_commands)))
