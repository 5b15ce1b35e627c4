-- ===== src/Protocols/Staking/Action.antt =====
-- protocols/staking_v02/semantics.py: the kinds of action and the record of one action.
use chainlink_economic_ledge.Prelude.{ℕ, String, Option, ℤ}

pub data ActionKind : Type 0 where
  stake unstake_requested unstake_finalized reward_claimed : ActionKind
  reward_accrued slashed migrated_from_v01 pool_config_changed : ActionKind

-- The `.value` of each kind.
unfoldable pub kind_value : ActionKind → String
kind_value ActionKind.stake = "stake"
kind_value ActionKind.unstake_requested = "unstake_requested"
kind_value ActionKind.unstake_finalized = "unstake_finalized"
kind_value ActionKind.reward_claimed = "reward_claimed"
kind_value ActionKind.reward_accrued = "reward_accrued"
kind_value ActionKind.slashed = "slashed"
kind_value ActionKind.migrated_from_v01 = "migrated_from_v01"
kind_value ActionKind.pool_config_changed = "pool_config_changed"

pub record EconomicAction : Type 0 where
  pub action_id : String
  pub kind : ActionKind
  pub chain_id : ℕ
  pub block_number : ℕ
  pub tx_hash : String
  pub log_index : ℕ
  pub contract_address : String
  pub pool_role : String
  pub wallet : Option String
  pub amount_link : ℤ
  pub source_event_signature : String
  pub raw_log_id : String
  pub decoded_event_id : String
