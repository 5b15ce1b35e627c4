-- ===== src/Reconciliation/Partition.antt =====
-- reconciliation/economic_reconciler.py, `reconcile_partition`. `sha256` is the hex digest of a
-- text. The pass rate, a float in the source, is the pair of numbers whose quotient it is.
pub mod Counts
pub mod Hashes
use chainlink_economic_ledge.Prelude.{
  ℕ, ◌+◌, String, none, some, List, [], ◌∷◌, ◌++◌, map, not, length, contains, ltb, ◌==◌, string_eq,
  if◌then◌else◌,
}
use chainlink_economic_ledge.Prelude.Text.{show_ℕ, str_ltb, join}
use chainlink_economic_ledge.Prelude.Dict.{Dict, lookup, or_nil, keys}
use chainlink_economic_ledge.Prelude.Sort.{sort}
use chainlink_economic_ledge.Protocols.Staking.Action.{EconomicAction}
use chainlink_economic_ledge.Reconciliation.Movement.{TokenMovement}
use chainlink_economic_ledge.Reconciliation.Edge.{Status, status_eq}
use chainlink_economic_ledge.Reconciliation.Transaction.{TxReconciliation, match_tx_economics}

pub record Ratio : Type 0 where
  pub numerator : ℕ
  pub denominator : ℕ

pub record PartitionReconciliation : Type 0 where
  pub partition_id : String
  pub chain_id : ℕ
  pub block_range : ℕ × ℕ
  pub tx_recons : List TxReconciliation
  pub pass_rate : Ratio
  pub counts_by_status : Dict Status ℕ

-- `dict.fromkeys(Status, 0)`
abbrev pub zero_counts : Dict Status ℕ
zero_counts =
    (Status.exact, 0)
    ∷ (Status.partial, 0)
    ∷ (Status.unmatched, 0)
    ∷ (Status.not_expected, 0)
    ∷ (Status.unexpected, 0)
    ∷ (Status.ambiguous, 0)
    ∷ []

-- `counts[s] += 1`
unfoldable pub bump : Status → Dict Status ℕ → Dict Status ℕ
bump s [] = []
bump s ((t, n) ∷ rest) = if t == s then (t, n + 1) ∷ rest else (t, n) ∷ bump s rest

unfoldable pub count_statuses : Dict Status ℕ → List TxReconciliation → Dict Status ℕ
unfolding bump
count_statuses counts [] = counts
count_statuses counts (r ∷ rest) = count_statuses (bump r.overall_status counts) rest

-- `counts.get(s, 0)`
abbrev pub count_of : Status → Dict Status ℕ → ℕ
count_of s counts = elim (lookup s counts) [ none ↦ 0 | some n ↦ n ]

-- `(pass_count / total) if total > 0 else 1.0`
unfoldable pub pass_rate_of : Dict Status ℕ → ℕ → Ratio
pass_rate_of counts total =
    let pass_count = count_of Status.exact counts + count_of Status.not_expected counts in
    if ltb 0 total
    then record { numerator = pass_count; denominator = total }
    else record { numerator = 1; denominator = 1 }

-- The texts of a list, each once.
unfoldable pub distinct : List String → List String
distinct [] = []
distinct (x ∷ xs) = let rest = distinct xs in if contains rest x then rest else x ∷ rest

-- `sorted(set(a) | set(b))`
unfoldable pub all_tx_hashes : List String → List String → List String
unfolding distinct
all_tx_hashes a b = sort (λ s t. not (str_ltb t s)) (distinct (a ++ b))

module _ (sha256 : String → String) where
  unfoldable pub reconcile_txs :
      Dict String (List EconomicAction)
      → Dict String (List TokenMovement)
      → List String
      → List TxReconciliation
  reconcile_txs actions_by_tx movements_by_tx hashes =
      map
        (λ h.
          match_tx_economics sha256 (or_nil (lookup h actions_by_tx))
            (or_nil (lookup h movements_by_tx)) none)
        hashes

  unfoldable pub reconcile_partition :
      ℕ
      → ℕ
      → ℕ
      → Dict String (List EconomicAction)
      → Dict String (List TokenMovement)
      → PartitionReconciliation
  unfolding count_statuses all_tx_hashes reconcile_txs pass_rate_of
  reconcile_partition chain_id from_block to_block actions_by_tx movements_by_tx =
      let hashes = all_tx_hashes (keys actions_by_tx) (keys movements_by_tx) in
      let tx_recons = reconcile_txs actions_by_tx movements_by_tx hashes in
      let counts = count_statuses zero_counts tx_recons in
      record {
        partition_id =
            sha256
              (join "|" ("partition" ∷ show_ℕ chain_id ∷ show_ℕ from_block ∷ show_ℕ to_block ∷ []));
        chain_id = chain_id;
        block_range = (from_block, to_block);
        tx_recons = tx_recons;
        pass_rate = pass_rate_of counts (length tx_recons);
        counts_by_status = counts;
      }
