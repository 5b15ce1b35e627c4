-- ===== src/Analytics/ApyRealized.antt =====
-- analytics/apy_realized.py: the time-weighted principal and the yield. Times are unix seconds; a float
-- that is a quotient is its numerator and denominator.
pub mod Integral
use chainlink_economic_ledge.Prelude.{
  ℕ, zero, suc, ◌+◌, ◌-◌, ◌*◌, min, String, Option, none, some, List, [], ◌∷◌, map, filter, Bool,
  leb, ltb, get_some, if◌then◌else◌, ℤ, pos, negsuc, sum_ℤ, ◌||◌, leb_ℤ,
}
use chainlink_economic_ledge.Prelude.Text.{lower}

abbrev pub seconds_per_year : ℕ
seconds_per_year = 365 * 24 * 3600

-- A row of stakes: the keys that are read, `none` where one is missing; for `end_unix` also where it
-- is None. A None of another key is a TypeError in the source, so such rows are left out.
pub record StakeEvent : Type 0 where
  pub principal : Option ℤ
  pub start_unix : Option ℕ
  pub end_unix : Option ℕ

-- A row of rewards, `none` where a key is missing.
pub record RewardEvent : Type 0 where
  pub amount_link : Option ℤ
  pub ts_unix : Option ℕ

pub record Quotient : Type 0 where
  pub numerator : ℤ
  pub denominator : ℕ

pub record ApyDataPoint : Type 0 where
  pub pool_address : String
  pub snapshot_date : String
  pub cumulative_principal_link_seconds : ℕ
  pub cumulative_rewards_link : ℤ
  pub realized_apy : Quotient

-- The positive amount, since no other is added.
abbrev pub positive_part : ℤ → ℕ
positive_part (pos n) = n
positive_part (negsuc n) = 0

-- `ev.get("end_unix", snapshot_unix) or snapshot_unix`
abbrev pub end_or : ℕ → Option ℕ → ℕ
end_or snapshot_unix none = snapshot_unix
end_or snapshot_unix (some zero) = snapshot_unix
end_or snapshot_unix (some (suc n)) = suc n

-- What a stake adds to the total; `continue` adds nothing.
unfoldable pub link_seconds : ℕ → StakeEvent → ℕ
link_seconds snapshot_unix ev =
    let principal = positive_part (get_some (pos 0) ev.principal) in
    let start = get_some 0 ev.start_unix in
    let end = min (end_or snapshot_unix ev.end_unix) snapshot_unix in
    if leb end start || leb principal 0 then 0 else principal * (end - start)

unfoldable pub time_weighted_from : ℕ → ℕ → List StakeEvent → ℕ
unfolding link_seconds
time_weighted_from snapshot_unix total [] = total
time_weighted_from snapshot_unix total (ev ∷ stake_events) =
    time_weighted_from snapshot_unix (total + link_seconds snapshot_unix ev) stake_events

unfoldable pub compute_time_weighted_principal : List StakeEvent → ℕ → ℕ
unfolding time_weighted_from
compute_time_weighted_principal stake_events snapshot_unix =
    time_weighted_from snapshot_unix 0 stake_events

-- `n * k` of a nonnegative k.
abbrev pub times : ℤ → ℕ → ℤ
times (pos n) k = pos (n * k)
times (negsuc n) zero = pos 0
times (negsuc n) (suc k) = negsuc (suc n * suc k - 1)

unfoldable pub compute_realized_apy : ℤ → ℕ → Quotient
compute_realized_apy rewards_link link_seconds_ =
    if leb link_seconds_ 0
    then record { numerator = pos 0; denominator = 1 }
    else record { numerator = times rewards_link seconds_per_year; denominator = link_seconds_ }

unfoldable pub compute_apy_for_pool :
    String → String → ℕ → List StakeEvent → List RewardEvent → ApyDataPoint
unfolding compute_time_weighted_principal compute_realized_apy
compute_apy_for_pool pool_address snapshot_date snapshot_unix stake_events reward_events =
    let twp = compute_time_weighted_principal stake_events snapshot_unix in
    let cumulative_rewards = sum_ℤ (
      map (λ r. get_some (pos 0) r.amount_link)
        (filter (λ r. leb (get_some 0 r.ts_unix) snapshot_unix) reward_events)) in
    record {
      pool_address = lower pool_address;
      snapshot_date = snapshot_date;
      cumulative_principal_link_seconds = twp;
      cumulative_rewards_link = cumulative_rewards;
      realized_apy = compute_realized_apy cumulative_rewards twp;
    }
