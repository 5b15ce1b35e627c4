-- ===== src/Reconciliation/Partition/Counts.antt =====
-- The counts of a partition add up, its pass rate is at most one, and each transaction hash of the
-- input is reconciled once.
use chainlink_economic_ledge.Prelude.{
  ℕ, ◌+◌, ◌≤◌, ◌<◌, String, List, [], ◌∷◌, true, ◌≡◌, ◌≢◌, refl, ◌∙◌, length, filter, contains,
  ◌==◌, string_eq, arith, if◌then◌else◌,
}
use chainlink_economic_ledge.Prelude.Dict.{Dict, keys}
use chainlink_economic_ledge.Protocols.Staking.Action.{EconomicAction}
use chainlink_economic_ledge.Reconciliation.Movement.{TokenMovement}
use chainlink_economic_ledge.Reconciliation.Edge.{Status, status_eq, status_beq_iff}
use chainlink_economic_ledge.Reconciliation.Transaction.{TxReconciliation}
use chainlink_economic_ledge.Reconciliation.Partition.{
  PartitionReconciliation, zero_counts, bump, count_statuses, count_of, pass_rate_of,
  reconcile_partition,
}

-- The transactions of a status.
abbrev pub with_status : Status → List TxReconciliation → ℕ
with_status s rs = length (filter (λ r. r.overall_status == s) rs)

count_of-bump :
    (s t : Status) (counts : Dict Status ℕ)
    → contains (keys counts) t ≡ true
    → count_of s (bump t counts) ≡ (if t == s then count_of s counts + 1 else count_of s counts)
unfolding bump
count_of-bump s t [] h = cc
count_of-bump s t ((u, n) ∷ counts) h =
    ground
      (arith, count_of-bump s t counts, status_beq_iff u t, status_beq_iff u s, status_beq_iff t s)

keys-bump : (t : Status) (counts : Dict Status ℕ) → keys (bump t counts) ≡ keys counts
unfolding bump
keys-bump t [] = refl
keys-bump t ((u, n) ∷ counts) = ground (arith, keys-bump t counts)

count_statuses-count :
    (s : Status) (counts : Dict Status ℕ) (rs : List TxReconciliation)
    → ((t : Status) → contains (keys counts) t ≡ true)
    → count_of s (count_statuses counts rs) ≡ count_of s counts + with_status s rs
unfolding count_statuses
count_statuses-count s counts [] h = omega arith
count_statuses-count s counts (r ∷ rs) h =
    let t = r.overall_status in
    ground (
      arith,
      count_statuses-count s (bump t counts) rs (λ u. rw (keys-bump t counts) (h u)),
      count_of-bump s t counts (h t),
    )

every_status : (t : Status) → contains (keys zero_counts) t ≡ true
every_status Status.exact = refl
every_status _ = refl

-- The six statuses share out the transactions.
statuses_partition :
    (rs : List TxReconciliation)
    → with_status Status.exact rs
        + with_status Status.partial rs
        + with_status Status.unmatched rs
        + with_status Status.not_expected rs
        + with_status Status.unexpected rs
        + with_status Status.ambiguous rs
      ≡ length rs
statuses_partition [] = refl
statuses_partition (r ∷ rs) = ground (arith, statuses_partition rs)

zero_start : (s : Status) (n : ℕ) → count_of s zero_counts + n ≡ n
zero_start Status.exact n = omega arith
zero_start _ n = omega arith

length_pos : (rs : List TxReconciliation) → rs ≢ [] → 0 < length rs
length_pos [] h = absurd (h refl)
length_pos (r ∷ rs) h = omega arith

pass_rate-recons :
    (rs : List TxReconciliation)
    → let rate = pass_rate_of (count_statuses zero_counts rs) (length rs) in
      (rate.numerator ≤ rate.denominator)
      × (0 < rate.denominator)
      × (rs ≢ []
          → (rate.denominator ≡ length rs)
            × (rate.numerator ≡ with_status Status.exact rs + with_status Status.not_expected rs))
      × (rs ≡ [] → (rate.numerator ≡ 1) × (rate.denominator ≡ 1))
unfolding pass_rate_of
pass_rate-recons rs =
    let exact = count_statuses-count Status.exact zero_counts rs every_status in
    let none_due = count_statuses-count Status.not_expected zero_counts rs every_status in
    (
      ground (arith, exact, none_due, statuses_partition rs),
      ground arith,
      λ h. (ground (arith, length_pos rs h), ground (arith, exact, none_due, length_pos rs h)),
      λ h. rw h (refl, refl),
    )

module _ (sha256 : String → String) (chain_id from_block to_block : ℕ)
    (actions_by_tx : Dict String (List EconomicAction))
    (movements_by_tx : Dict String (List TokenMovement)) where
  abbrev pub report : PartitionReconciliation
  report = reconcile_partition sha256 chain_id from_block to_block actions_by_tx movements_by_tx

  pub reconcile_partition-counts :
      ((s : Status) → count_of s report.counts_by_status ≡ with_status s report.tx_recons)
      × (report.pass_rate.numerator ≤ report.pass_rate.denominator)
      × (0 < report.pass_rate.denominator)
      × (report.tx_recons ≢ []
          → (report.pass_rate.denominator ≡ length report.tx_recons)
            × (report.pass_rate.numerator
                ≡ with_status Status.exact report.tx_recons
                  + with_status Status.not_expected report.tx_recons))
      × (report.tx_recons ≡ []
          → (report.pass_rate.numerator ≡ 1) × (report.pass_rate.denominator ≡ 1))
  unfolding reconcile_partition
  reconcile_partition-counts =
      let rate = pass_rate-recons report.tx_recons in
      (
        λ s.
            count_statuses-count s zero_counts report.tx_recons every_status
            ∙ zero_start s (with_status s report.tx_recons),
        rate.0,
        rate.1,
        rate.2,
        rate.3,
      )
