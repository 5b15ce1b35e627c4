-- ===== src/Examples/Matching.antt =====
-- Subset search, matching and roll-up at concrete movements.
use mathlib.Core.List.{Sublistᴰ}
use chainlink_economic_ledge.Prelude.{
  ◌≤◌, none, some, List, [], ◌∷◌, true, false, ◌≡◌, ◌≢◌, refl, pos, ◌+ℤ◌, length, filter, All,
  arith,
}
use chainlink_economic_ledge.Reconciliation.Movement.{TokenMovement}
use chainlink_economic_ledge.Reconciliation.Edge.{Status, is_not_expected}
use chainlink_economic_ledge.Reconciliation.Subsets.{find_subset_summing_to, max_size}
use chainlink_economic_ledge.Reconciliation.Subsets.Search.{
  IsSmallestSubset, total, find_subset_summing_to-some, find_subset_summing_to-none,
}
use chainlink_economic_ledge.Reconciliation.Matcher.{is_candidate, match_action_to_movements}
use chainlink_economic_ledge.Reconciliation.Matcher.Allocation.{
  allocated, is_settled, match_action_to_movements-allocated, match_action_to_movements-unmatched,
}
use chainlink_economic_ledge.Reconciliation.Matcher.Shape.{
  IsActionEdge, match_action_to_movements-shape,
}
use chainlink_economic_ledge.Reconciliation.Rollup.{has_status}
use chainlink_economic_ledge.Reconciliation.Matcher
use chainlink_economic_ledge.Prelude.Text.{lower}
use chainlink_economic_ledge.Examples.Data.{digest, stake_10, slash_3, moves, movement}

find_ten : find_subset_summing_to moves (pos 10) ≡ some (movement "m1" 4 ∷ movement "m2" 6 ∷ [])
unfolding find_subset_summing_to ◌+ℤ◌
find_ten = refl

find_nine : find_subset_summing_to moves (pos 9) ≡ none
unfolding find_subset_summing_to ◌+ℤ◌
find_nine = refl

find_subset_summing_to-some_example :
    IsSmallestSubset moves (pos 10) 2 (movement "m1" 4 ∷ movement "m2" 6 ∷ []) × (2 ≤ max_size)
find_subset_summing_to-some_example = find_subset_summing_to-some moves (pos 10) find_ten

find_subset_summing_to-none_example : ¬ (total (movement "m1" 4 ∷ movement "m2" 6 ∷ []) ≡ pos 9)
find_subset_summing_to-none_example =
    find_subset_summing_to-none moves (pos 9) (omega arith) find_nine
      (movement "m1" 4 ∷ movement "m2" 6 ∷ [])
      (Sublistᴰ.cons-cons refl (Sublistᴰ.cons-cons refl (Sublistᴰ.cons Sublistᴰ.slnil)))
      (omega arith) (omega arith)

stake_settled : is_settled (match_action_to_movements digest stake_10 moves) ≡ true
unfolding match_action_to_movements is_not_expected Matcher.match_candidates Matcher.match_exact
    Matcher.match_partial Matcher.partial_edges Matcher.movement_edge find_subset_summing_to lower
    ◌+ℤ◌
stake_settled = refl

slash_unmatched :
    has_status (match_action_to_movements digest slash_3 moves) Status.unmatched ≡ true
unfolding match_action_to_movements is_not_expected Matcher.match_candidates Matcher.match_exact
    Matcher.match_partial Matcher.no_subset_edge find_subset_summing_to lower ◌+ℤ◌
slash_unmatched = refl

match_action_to_movements-allocated_example :
    allocated (match_action_to_movements digest stake_10 moves) ≡ pos 10
match_action_to_movements-allocated_example =
    match_action_to_movements-allocated digest stake_10 moves stake_settled

match_action_to_movements-unmatched_example :
    (is_not_expected slash_3.kind ≡ false)
    × ((c : List TokenMovement)
        → Sublistᴰ c (filter (is_candidate slash_3) moves)
        → 1 ≤ length c
        → length c ≤ max_size
        → ¬ (total c ≡ pos 3))
match_action_to_movements-unmatched_example =
    match_action_to_movements-unmatched digest slash_3 moves slash_unmatched (omega arith)

match_action_to_movements-shape_example :
    All (IsActionEdge stake_10 moves) (match_action_to_movements digest stake_10 moves)
    × (match_action_to_movements digest stake_10 moves ≢ [])
match_action_to_movements-shape_example = match_action_to_movements-shape digest stake_10 moves
