-- ===== src/Reconciliation/Transaction.antt =====
-- reconciliation/economic_reconciler.py, `match_tx_economics`: the edges of one transaction.
-- `sha256` is the hex digest of a text.
pub mod Coverage
use chainlink_economic_ledge.Prelude.{
  ℕ, suc, String, Option, none, some, List, [], ◌∷◌, ◌++◌, ◌||◌, not, ℤ, filter, length, contains,
  ◌==◌, string_eq, if◌then◌else◌,
}
use chainlink_economic_ledge.Prelude.Text.{lower}
use chainlink_economic_ledge.Prelude.Dict.{Dict}
use chainlink_economic_ledge.Protocols.Staking.Action.{EconomicAction}
use chainlink_economic_ledge.Reconciliation.Movement.{TokenMovement}
use chainlink_economic_ledge.Reconciliation.Edge.{
  Status, ActionMovementMatch, compute_edge_id, method_for_movement, status_eq,
}
use chainlink_economic_ledge.Reconciliation.Matcher.{match_action_to_movements}
use chainlink_economic_ledge.Reconciliation.Rollup.{rollup_status}

pub record TxReconciliation : Type 0 where
  pub chain_id : ℕ
  pub block_number : ℕ
  pub tx_hash : String
  pub edges : List ActionMovementMatch
  pub actions_total : ℕ
  pub movements_total : ℕ
  pub unmatched_actions : ℕ
  pub unexpected_movements : ℕ
  pub overall_status : Status

abbrev pub empty_reconciliation : TxReconciliation
empty_reconciliation = record {
  chain_id = 0;
  block_number = 0;
  tx_hash = "";
  edges = [];
  actions_total = 0;
  movements_total = 0;
  unmatched_actions = 0;
  unexpected_movements = 0;
  overall_status = Status.exact;
}

-- The ids that the edges of the actions name.
abbrev pub matched_ids : List ActionMovementMatch → List String
matched_ids [] = []
matched_ids (e ∷ rest) = elim e.movement_id [
  | none ↦ matched_ids rest
  | some i ↦ i ∷ matched_ids rest
]

module _ (sha256 : String → String) where
  -- `for action in actions: edges.extend(…)`
  unfoldable pub action_edges : List EconomicAction → List TokenMovement → List ActionMovementMatch
  action_edges [] movements = []
  action_edges (a ∷ rest) movements =
      match_action_to_movements sha256 a movements ++ action_edges rest movements

  unfoldable pub unexpected_edge : ℕ → TokenMovement → ActionMovementMatch
  unexpected_edge i m = record {
    edge_id = compute_edge_id sha256 none (some m.movement_id) Status.unexpected i;
    action_id = none;
    movement_id = some m.movement_id;
    allocated_amount = m.amount;
    status = Status.unexpected;
    method = some (method_for_movement m);
    reason = "movement with no matching action";
  }

  -- `for i, m in enumerate(movements)`: of this transaction, and matched by no action.
  unfoldable pub unexpected_edges :
      String → List String → ℕ → List TokenMovement → List ActionMovementMatch
  unfolding unexpected_edge
  unexpected_edges tx_hash matched i [] = []
  unexpected_edges tx_hash matched i (m ∷ rest) =
      let later = unexpected_edges tx_hash matched (suc i) rest in
      if not (lower m.tx_hash == tx_hash) || contains matched m.movement_id
      then later
      else unexpected_edge i m ∷ later

  -- The reconciliation of a transaction whose first action or movement gives the header.
  unfoldable pub reconcile_with :
      ℕ → ℕ → String → List EconomicAction → List TokenMovement → TxReconciliation
  unfolding action_edges unexpected_edges
  reconcile_with chain_id block_number tx_hash actions movements =
      let matched = action_edges actions movements in
      let unexpected = unexpected_edges tx_hash (matched_ids matched) 0 movements in
      let edges = matched ++ unexpected in
      record {
        chain_id = chain_id;
        block_number = block_number;
        tx_hash = tx_hash;
        edges = edges;
        actions_total = length actions;
        movements_total = length movements;
        unmatched_actions = length (filter (λ e. e.status == Status.unmatched) edges);
        unexpected_movements = length unexpected;
        overall_status = rollup_status edges;
      }

  -- `pool_balance_deltas` is accepted and not used.
  unfoldable pub match_tx_economics :
      List EconomicAction → List TokenMovement → Option (Dict String ℤ) → TxReconciliation
  unfolding reconcile_with
  match_tx_economics [] [] deltas = empty_reconciliation
  match_tx_economics (a ∷ actions) movements deltas =
      reconcile_with a.chain_id a.block_number (lower a.tx_hash) (a ∷ actions) movements
  match_tx_economics [] (m ∷ movements) deltas =
      reconcile_with m.chain_id m.block_number (lower m.tx_hash) [] (m ∷ movements)
