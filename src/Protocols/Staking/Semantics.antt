-- ===== src/Protocols/Staking/Semantics.antt =====
-- protocols/staking_v02/semantics.py: from decoded events to actions. `sha256` is the hex digest of
-- a text; `none` is an exception, which only `int` of an amount raises.
pub mod Migration
pub mod Provenance
use Prim.Native.String.{◌++◌}
use chainlink_economic_ledge.Prelude.{
  ℕ, String, Option, none, some, List, [], ◌∷◌, ℤ, pos, get_some, ◌==◌, string_eq, if◌then◌else◌,
}
use chainlink_economic_ledge.Prelude.Text.{lower}
use chainlink_economic_ledge.Prelude.Dict.{Dict, lookup}
use chainlink_economic_ledge.Decoder.Types.{Value, DecodedEvent, to_int, to_text}
use chainlink_economic_ledge.Decoder.ContractRegistry.{ContractRegistry, role, get_phase}
use chainlink_economic_ledge.Protocols.Staking.Action.{ActionKind, EconomicAction, kind_value}

abbrev pub event_name_to_kind : Dict String ActionKind
event_name_to_kind =
    ("Staked", ActionKind.stake)
    ∷ ("Stake", ActionKind.stake)
    ∷ ("UnstakeRequested", ActionKind.unstake_requested)
    ∷ ("UnbondingPeriodStarted", ActionKind.unstake_requested)
    ∷ ("Unstaked", ActionKind.unstake_finalized)
    ∷ ("UnstakeFinalized", ActionKind.unstake_finalized)
    ∷ ("Withdrawn", ActionKind.unstake_finalized)
    ∷ ("RewardClaimed", ActionKind.reward_claimed)
    ∷ ("RewardsClaimed", ActionKind.reward_claimed)
    ∷ ("RewardAdded", ActionKind.reward_accrued)
    ∷ ("RewardAccrued", ActionKind.reward_accrued)
    ∷ ("Slashed", ActionKind.slashed)
    ∷ ("Migrated", ActionKind.migrated_from_v01)
    ∷ ("MigratedFromV01", ActionKind.migrated_from_v01)
    ∷ ("PoolConfigChanged", ActionKind.pool_config_changed)
    ∷ ("ConfigSet", ActionKind.pool_config_changed)
    ∷ []

pub record EnrichedAction : Type 0 where
  pub action : EconomicAction
  pub pool_address : String
  pub pool_role : String
  pub contract_phase_version : String

-- The value of the first key that has one which is not None.
unfoldable pub first_value : List String → Dict String Value → Option Value
first_value [] source = none
first_value (k ∷ rest) source =
    let later = first_value rest source in
    elim (lookup k source) [
      | none ↦ later
      | some v ↦ elim v [
        | Value.null ↦ later
        | Value.number n ↦ some (Value.number n)
        | Value.text s ↦ some (Value.text s)
        | Value.bytes b ↦ some (Value.bytes b)
      ]
    ]

-- `for source in (indexed_params, data_params): for k in candidate_keys`
abbrev pub first_param : List String → DecodedEvent → Option Value
first_param candidate_keys decoded = elim (first_value candidate_keys decoded.indexed_params) [
  | none ↦ first_value candidate_keys decoded.data_params
  | some v ↦ some v
]

unfoldable pub extract_amount_link : DecodedEvent → Option ℤ
unfolding first_value
extract_amount_link decoded =
    let candidate_keys =
      "amount" ∷ "value" ∷ "newPrincipal" ∷ "principal" ∷ "reward" ∷ "slashedAmount"
      ∷ "slashedPrincipal" ∷ "rewardAmount" ∷ "stakedAmount" ∷ "withdrawnAmount" ∷ [] in
    elim (first_param candidate_keys decoded) [ none ↦ some (pos 0) | some v ↦ to_int v ]

unfoldable pub extract_wallet : DecodedEvent → Option String
unfolding first_value
extract_wallet decoded =
    let candidate_keys = "staker" ∷ "wallet" ∷ "user" ∷ "operator" ∷ "account" ∷ "from" ∷ [] in
    elim (first_param candidate_keys decoded) [ none ↦ none | some v ↦ some (lower (to_text v)) ]

-- `registry.role(address) or default`
abbrev pub role_or : String → Option String → String
role_or default none = default
role_or default (some r) = if r == "" then default else r

module _ (sha256 : String → String) where
  unfoldable pub compute_action_id : DecodedEvent → ActionKind → String
  compute_action_id decoded kind =
      sha256 ("action|" ++ decoded.decoded_event_id ++ "|" ++ kind_value kind)

  unfoldable pub base_action : DecodedEvent → String → ActionKind → ℤ → EconomicAction
  unfolding compute_action_id extract_wallet
  base_action decoded pool_role kind amount = record {
    action_id = compute_action_id decoded kind;
    kind = kind;
    chain_id = decoded.chain_id;
    block_number = decoded.block_number;
    tx_hash = decoded.tx_hash;
    log_index = decoded.log_index;
    contract_address = decoded.contract_address;
    pool_role = pool_role;
    wallet = extract_wallet decoded;
    amount_link = amount;
    source_event_signature = decoded.event_signature;
    raw_log_id = decoded.raw_log_id;
    decoded_event_id = decoded.decoded_event_id;
  }

  -- The action that a migration has besides the base action.
  unfoldable pub v01_action : DecodedEvent → EconomicAction → EconomicAction
  v01_action decoded base = record base {
    action_id = sha256 ("action|" ++ decoded.decoded_event_id ++ "|migrated_v01_debit");
    pool_role = "staking_pool_v01";
  }

  abbrev pub actions_of_kind : DecodedEvent → ActionKind → EconomicAction → List EconomicAction
  actions_of_kind decoded ActionKind.migrated_from_v01 base = v01_action decoded base ∷ base ∷ []
  actions_of_kind decoded ActionKind.stake base = base ∷ []
  actions_of_kind decoded ActionKind.unstake_requested base = base ∷ []
  actions_of_kind decoded ActionKind.unstake_finalized base = base ∷ []
  actions_of_kind decoded ActionKind.reward_claimed base = base ∷ []
  actions_of_kind decoded ActionKind.reward_accrued base = base ∷ []
  actions_of_kind decoded ActionKind.slashed base = base ∷ []
  actions_of_kind decoded ActionKind.pool_config_changed base = base ∷ []

  unfoldable pub classify_event_as_action :
      DecodedEvent → ContractRegistry → Option (List EconomicAction)
  unfolding base_action v01_action extract_amount_link
  classify_event_as_action decoded registry =
      let pool_role = role_or "unknown" (role registry decoded.contract_address) in
      if pool_role == "unknown"
      then some []
      else elim (lookup decoded.event_name event_name_to_kind) [
        | none ↦ some []
        | some kind ↦ elim (extract_amount_link decoded) [
          | none ↦ none
          | some amount ↦
              some (actions_of_kind decoded kind (base_action decoded pool_role kind amount))
        ]
      ]

unfoldable pub enrich_action_with_context : EconomicAction → ContractRegistry → EnrichedAction
enrich_action_with_context action registry = record {
  action = action;
  pool_address = action.contract_address;
  pool_role = role_or action.pool_role (role registry action.contract_address);
  contract_phase_version = elim (get_phase registry action.contract_address action.block_number) [
    | none ↦ "unknown"
    | some phase ↦ phase.abi_version
  ];
}
