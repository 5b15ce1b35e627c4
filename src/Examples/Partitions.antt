-- ===== src/Examples/Partitions.antt =====
-- Transactions, partitions, checks and the pool balance at concrete inputs.
use chainlink_economic_ledge.Prelude.{
  ℕ, ◌+◌, ◌≤◌, ◌<◌, suc, String, none, List, [], ◌∷◌, true, ◌≡◌, ◌≢◌, pos, negsuc, ltb,
  if◌then◌else◌, ◌+ℤ◌, ◌-ℤ◌, length, arith,
}
use chainlink_economic_ledge.Prelude.{string_eq}
use chainlink_economic_ledge.Prelude.Text.{lower}
use chainlink_economic_ledge.Prelude.Dict.{Dict}
use chainlink_economic_ledge.Protocols.Staking.Action.{EconomicAction}
use chainlink_economic_ledge.Reconciliation.Movement.{TokenMovement}
use chainlink_economic_ledge.Reconciliation.Edge.{Status}
use chainlink_economic_ledge.Reconciliation.Transaction.{TxReconciliation, match_tx_economics}
use chainlink_economic_ledge.Reconciliation.Transaction.Coverage.{
  IsCovered, match_tx_economics-IsCovered,
}
use chainlink_economic_ledge.Reconciliation.Partition.{
  PartitionReconciliation, count_of, reconcile_partition,
}
use chainlink_economic_ledge.Reconciliation.Partition.Counts.{
  with_status, reconcile_partition-counts,
}
use chainlink_economic_ledge.Reconciliation.Balances.{
  BalanceProvider, compute_balance_delta, reconcile_pool_movement_vs_balance,
}
use chainlink_economic_ledge.Reconciliation.Balances.Ranges.{
  received, sent, compute_balance_delta-net, reconcile_pool-consistent,
}
use chainlink_economic_ledge.Examples.Data.{digest, stake_10, slash_3, moves}

abbrev reconciled : TxReconciliation
reconciled = match_tx_economics digest (stake_10 ∷ slash_3 ∷ []) moves none

match_tx_economics-IsCovered_example : IsCovered (stake_10 ∷ slash_3 ∷ []) moves reconciled
match_tx_economics-IsCovered_example =
    match_tx_economics-IsCovered digest (stake_10 ∷ slash_3 ∷ []) moves none

abbrev actions_by_tx : Dict String (List EconomicAction)
actions_by_tx = ("0xaa", stake_10 ∷ slash_3 ∷ []) ∷ []

abbrev movements_by_tx : Dict String (List TokenMovement)
movements_by_tx = ("0xaa", moves) ∷ []

abbrev partition : PartitionReconciliation
partition = reconcile_partition digest 1 0 9 actions_by_tx movements_by_tx

reconcile_partition-counts_example :
    ((s : Status) → count_of s partition.counts_by_status ≡ with_status s partition.tx_recons)
    × (partition.pass_rate.numerator ≤ partition.pass_rate.denominator)
    × (0 < partition.pass_rate.denominator)
    × (partition.tx_recons ≢ []
        → (partition.pass_rate.denominator ≡ length partition.tx_recons)
          × (partition.pass_rate.numerator
              ≡ with_status Status.exact partition.tx_recons
                + with_status Status.not_expected partition.tx_recons))
    × (partition.tx_recons ≡ []
        → (partition.pass_rate.numerator ≡ 1) × (partition.pass_rate.denominator ≡ 1))
reconcile_partition-counts_example =
    reconcile_partition-counts digest 1 0 9 actions_by_tx movements_by_tx

compute_balance_delta-net_example :
    compute_balance_delta moves "0xPOOL" 0 9
    ≡ received (lower "0xPOOL") 0 9 moves -ℤ sent (lower "0xPOOL") 0 9 moves
compute_balance_delta-net_example = compute_balance_delta-net moves "0xPOOL" 0 9

-- A pool that receives the 11 of `moves` in block 7.
abbrev balances : BalanceProvider
balances token holder (pos b) = if ltb b 7 then pos 0 else pos 11
balances token holder (negsuc b) = pos 0

balances_follow :
    (b : ℕ)
    → balances "0xlink" (lower "0xPOOL") (pos (suc b)) -ℤ balances "0xlink" (lower "0xPOOL") (pos b)
      ≡ compute_balance_delta moves "0xPOOL" (suc b) (suc b)
unfolding compute_balance_delta lower ◌+ℤ◌ ◌-ℤ◌
balances_follow b = ground arith

reconcile_pool-consistent_example :
    let r = reconcile_pool_movement_vs_balance balances "0xlink" "0xPOOL" moves 4 8 in
    (r.is_consistent ≡ true) × (r.diff ≡ pos 0)
reconcile_pool-consistent_example =
    reconcile_pool-consistent balances "0xlink" "0xPOOL" moves balances_follow 3 5
