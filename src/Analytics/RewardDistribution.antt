-- ===== src/Analytics/RewardDistribution.antt =====
-- analytics/reward_distribution.py: claimed and unclaimed rewards.
use chainlink_economic_ledge.Prelude.{
  String, Option, List, map, ltb_ℤ, get_some, if◌then◌else◌, ℤ, pos, sum_ℤ, ◌-ℤ◌,
}
use chainlink_economic_ledge.Prelude.Text.{lower}

-- A ratio of integers; `0.0` is 0 of 1.
pub record ClaimRatio : Type 0 where
  pub claimed : ℤ
  pub distributed : ℤ

pub record DistributionEfficiency : Type 0 where
  pub pool_address : String
  pub snapshot_date : String
  pub rewards_distributed : ℤ
  pub rewards_claimed : ℤ
  pub claim_ratio : ClaimRatio

-- `sum(int(e.get("amount_link", 0)) for e in events)`, of the amounts of the rows.
abbrev pub total_link : List (Option ℤ) → ℤ
total_link events = sum_ℤ (map (λ amount. get_some (pos 0) amount) events)

unfoldable pub compute_distribution_efficiency :
    String → String → List (Option ℤ) → List (Option ℤ) → DistributionEfficiency
compute_distribution_efficiency pool_address snapshot_date distributed_events claimed_events =
    let distributed_ = total_link distributed_events in
    let claimed_ = total_link claimed_events in
    record {
      pool_address = lower pool_address;
      snapshot_date = snapshot_date;
      rewards_distributed = distributed_;
      rewards_claimed = claimed_;
      claim_ratio =
          if ltb_ℤ (pos 0) distributed_
          then record { claimed = claimed_; distributed = distributed_ }
          else record { claimed = pos 0; distributed = pos 1 };
    }

unfoldable pub compute_unclaimed_reward_balance : List (Option ℤ) → List (Option ℤ) → ℤ
compute_unclaimed_reward_balance distributed_events claimed_events =
    total_link distributed_events -ℤ total_link claimed_events
