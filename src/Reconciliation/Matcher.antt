-- ===== src/Reconciliation/Matcher.antt =====
-- reconciliation/economic_reconciler.py, `match_action_to_movements` and `match_tx_economics`.
-- `sha256` is the hex digest of a text.
pub mod Allocation
pub mod Shape
use Prim.Native.String.{◌++◌ as str_append}
use chainlink_economic_ledge.Prelude.{
  ℕ, suc, ◌+◌, String, none, some, List, [], ◌∷◌, Bool, ◌&&◌, ℤ, pos, ltb_ℤ, eqb_ℤ, leb, length,
  filter, ◌==◌, string_eq, if◌then◌else◌,
}
use chainlink_economic_ledge.Prelude.Text.{lower, show_ℕ, show_ℤ, join}
use chainlink_economic_ledge.Protocols.Staking.Action.{EconomicAction, kind_value}
use chainlink_economic_ledge.Reconciliation.Movement.{TokenMovement}
use chainlink_economic_ledge.Reconciliation.Edge.{
  Status, ActionMovementMatch, compute_edge_id, method_for_movement, is_not_expected, status_eq,
}
use chainlink_economic_ledge.Reconciliation.Subsets.{find_subset_summing_to}

abbrev pub is_candidate : EconomicAction → TokenMovement → Bool
is_candidate action m = lower m.tx_hash == lower action.tx_hash && ltb_ℤ (pos 0) m.amount

abbrev pub has_amount : ℤ → TokenMovement → Bool
has_amount target m = eqb_ℤ m.amount target

module _ (sha256 : String → String) where
  -- An edge that names an action and no movement.
  unfoldable pub bare_edge : EconomicAction → Status → String → ActionMovementMatch
  bare_edge action status reason = record {
    edge_id = compute_edge_id sha256 (some action.action_id) none status 0;
    action_id = some action.action_id;
    movement_id = none;
    allocated_amount = pos 0;
    status = status;
    method = none;
    reason = reason;
  }

  -- An edge between an action and a movement.
  unfoldable pub movement_edge :
      EconomicAction → TokenMovement → Status → ℕ → String → ActionMovementMatch
  movement_edge action m status idx reason = record {
    edge_id = compute_edge_id sha256 (some action.action_id) (some m.movement_id) status idx;
    action_id = some action.action_id;
    movement_id = some m.movement_id;
    allocated_amount = m.amount;
    status = status;
    method = some (method_for_movement m);
    reason = reason;
  }

  -- `for i, m in enumerate(subset)`; `total` is `len(subset)`.
  unfoldable pub partial_edges :
      EconomicAction → ℕ → ℕ → List TokenMovement → List ActionMovementMatch
  unfolding movement_edge
  partial_edges action total i [] = []
  partial_edges action total i (m ∷ rest) =
      movement_edge action m Status.partial i
        (join "" ("batched movement " ∷ show_ℕ (i + 1) ∷ "/" ∷ show_ℕ total ∷ []))
      ∷ partial_edges action total (suc i) rest

  -- The last resort, and what a subset of the candidates gives.
  unfoldable pub no_subset_edge : EconomicAction → List TokenMovement → ActionMovementMatch
  unfolding bare_edge
  no_subset_edge action candidates = bare_edge action Status.unmatched (
      join "" (
        "no subset of "
        ∷ show_ℕ (length candidates)
        ∷ " movements sums to "
        ∷ show_ℤ action.amount_link
        ∷ []))

  unfoldable pub match_partial : EconomicAction → List TokenMovement → List ActionMovementMatch
  unfolding partial_edges no_subset_edge
  match_partial action candidates =
      if ltb_ℤ (pos 0) action.amount_link
      then elim (find_subset_summing_to candidates action.amount_link) [
        | none ↦ no_subset_edge action candidates ∷ []
        | some subset ↦
            if leb 2 (length subset)
            then partial_edges action (length subset) 0 subset
            else no_subset_edge action candidates ∷ []
      ]
      else no_subset_edge action candidates ∷ []

  -- By the movements of the exact amount: one, several, or none.
  unfoldable pub match_exact :
      EconomicAction → List TokenMovement → List TokenMovement → List ActionMovementMatch
  unfolding movement_edge match_partial
  match_exact action candidates [] = match_partial action candidates
  match_exact action candidates (m ∷ []) =
      movement_edge action m Status.exact 0 "exact amount match" ∷ []
  match_exact action candidates (m ∷ m' ∷ rest) =
      movement_edge action m Status.ambiguous 0 (
        join "" (
          show_ℕ (length (m ∷ m' ∷ rest))
          ∷ " movements match action amount; requires manual disambiguation"
          ∷ []))
      ∷ []

  unfoldable pub match_candidates : EconomicAction → List TokenMovement → List ActionMovementMatch
  unfolding bare_edge match_exact
  match_candidates action [] =
      bare_edge action Status.unmatched "no movements in tx for this action" ∷ []
  match_candidates action (m ∷ rest) =
      match_exact action (m ∷ rest) (filter (has_amount action.amount_link) (m ∷ rest))

  unfoldable pub match_action_to_movements :
      EconomicAction → List TokenMovement → List ActionMovementMatch
  unfolding bare_edge match_candidates
  match_action_to_movements action movements =
      if is_not_expected action.kind
      then bare_edge action Status.not_expected
          (str_append (kind_value action.kind) " has no expected token movement")
        ∷ []
      else match_candidates action (filter (is_candidate action) movements)
