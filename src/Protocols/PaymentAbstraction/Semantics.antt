-- ===== src/Protocols/PaymentAbstraction/Semantics.antt =====
-- protocols/payment_abstraction/semantics.py: from decoded events to actions. `sha256` is the hex
-- digest of a text; `none` is an exception, which only `int` of an amount raises.
use Prim.Native.String.{◌++◌}
use chainlink_economic_ledge.Prelude.{
  ℕ, String, Option, none, some, List, [], ◌∷◌, Bool, true, false, ◌&&◌, ℤ, pos, eqb_ℤ, eqb, ◌==◌,
  string_eq, contains, if◌then◌else◌,
}
use chainlink_economic_ledge.Prelude.Text.{lower, codes}
use chainlink_economic_ledge.Prelude.Dict.{Dict, lookup}
use chainlink_economic_ledge.Decoder.Types.{Value, DecodedEvent, to_int, to_text}
use chainlink_economic_ledge.Decoder.ContractRegistry.{ContractRegistry, role}

pub data PaActionKind : Type 0 where
  fee_received swap_executed reserves_deposit service_fee_forwarded config_changed : PaActionKind

-- The `.value` of each kind.
unfoldable pub pa_kind_value : PaActionKind → String
pa_kind_value PaActionKind.fee_received = "pa_fee_received"
pa_kind_value PaActionKind.swap_executed = "pa_swap_executed"
pa_kind_value PaActionKind.reserves_deposit = "pa_reserves_deposit"
pa_kind_value PaActionKind.service_fee_forwarded = "pa_service_fee_forwarded"
pa_kind_value PaActionKind.config_changed = "pa_config_changed"

abbrev pub pa_reserves_address : String
pa_reserves_address = "0x5680681ed3767b96914ce741a308155c7fb9171d"

abbrev pub pa_fee_aggregator_address : String
pa_fee_aggregator_address = "0xd6e39d42acee7abcc460e6ea78a0844a0980e78f"

abbrev pub pa_swap_automator_address : String
pa_swap_automator_address = "0x36e827ba2b270535ca1b099a6ba2b280ddc0315e"

abbrev pub pa_event_name_to_kind : Dict String PaActionKind
pa_event_name_to_kind =
    ("FeeReceived", PaActionKind.fee_received)
    ∷ ("FeesReceived", PaActionKind.fee_received)
    ∷ ("FeeAggregated", PaActionKind.fee_received)
    ∷ ("SwapExecuted", PaActionKind.swap_executed)
    ∷ ("Swap", PaActionKind.swap_executed)
    ∷ ("Deposited", PaActionKind.reserves_deposit)
    ∷ ("ReservesDeposit", PaActionKind.reserves_deposit)
    ∷ ("Withdrawn", PaActionKind.reserves_deposit)
    ∷ ("ServiceFeeForwarded", PaActionKind.service_fee_forwarded)
    ∷ ("Forwarded", PaActionKind.service_fee_forwarded)
    ∷ ("ConfigSet", PaActionKind.config_changed)
    ∷ ("ConfigUpdated", PaActionKind.config_changed)
    ∷ []

pub record PaEconomicAction : Type 0 where
  pub action_id : String
  pub kind : PaActionKind
  pub chain_id : ℕ
  pub block_number : ℕ
  pub tx_hash : String
  pub log_index : ℕ
  pub contract_address : String
  pub contract_role : String
  pub source_token : Option String
  pub output_token : Option String
  pub source_amount : ℤ
  pub output_amount : ℤ
  pub counterparty : Option String
  pub source_event_signature : String
  pub raw_log_id : String
  pub decoded_event_id : String

-- `d.get(n)`, without a value that is None.
abbrev pub param_value : String → Dict String Value → Option Value
param_value n source = elim (lookup n source) [
  | none ↦ none
  | some v ↦ elim v [
    | Value.null ↦ none
    | Value.number k ↦ some (Value.number k)
    | Value.text s ↦ some (Value.text s)
    | Value.bytes b ↦ some (Value.bytes b)
  ]
]

abbrev pub is_truthy : Value → Bool
is_truthy v = elim v [
  | Value.null ↦ false
  | Value.number k ↦ if eqb_ℤ k (pos 0) then false else true
  | Value.text s ↦ if s == "" then false else true
  | Value.bytes b ↦ elim b [ [] ↦ false | _ ∷ _ ↦ true ]
]

-- `decoded.indexed_params.get(n) or decoded.data_params.get(n)`
unfoldable pub indexed_or_data : DecodedEvent → String → Option Value
indexed_or_data decoded n = elim (param_value n decoded.indexed_params) [
  | none ↦ param_value n decoded.data_params
  | some v ↦ if is_truthy v then some v else param_value n decoded.data_params
]

unfoldable pub pull_token : DecodedEvent → List String → Option String
unfolding indexed_or_data
pull_token decoded [] = none
pull_token decoded (n ∷ names) =
    let later = pull_token decoded names in
    elim (indexed_or_data decoded n) [ none ↦ later | some v ↦ some (lower (to_text v)) ]

unfoldable pub pull_amount : DecodedEvent → List String → Option ℤ
pull_amount decoded [] = some (pos 0)
pull_amount decoded (n ∷ names) =
    let later = pull_amount decoded names in
    elim (param_value n decoded.indexed_params) [
      | some v ↦ to_int v
      | none ↦ elim (param_value n decoded.data_params) [ none ↦ later | some v ↦ to_int v ]
    ]

-- `text.startswith(prefix)`, on the characters.
unfoldable pub is_prefix : List ℕ → List ℕ → Bool
is_prefix [] text = true
is_prefix (c ∷ prefix) [] = false
is_prefix (c ∷ prefix) (d ∷ text) = eqb c d && is_prefix prefix text

-- `registry.role(address) or ""`
abbrev pub role_of : ContractRegistry → String → String
role_of registry address = elim (role registry address) [ none ↦ "" | some r ↦ r ]

module _ (sha256 : String → String) where
  unfoldable pub compute_pa_action_id : DecodedEvent → PaActionKind → String
  unfolding pa_kind_value
  compute_pa_action_id decoded kind =
      sha256 ("pa_action|" ++ decoded.decoded_event_id ++ "|" ++ pa_kind_value kind)

  unfoldable pub pa_action : DecodedEvent → String → PaActionKind → ℤ → ℤ → PaEconomicAction
  unfolding compute_pa_action_id pull_token
  pa_action decoded contract_role kind source_amount output_amount = record {
    action_id = compute_pa_action_id decoded kind;
    kind = kind;
    chain_id = decoded.chain_id;
    block_number = decoded.block_number;
    tx_hash = decoded.tx_hash;
    log_index = decoded.log_index;
    contract_address = decoded.contract_address;
    contract_role = contract_role;
    source_token = pull_token decoded ("sourceToken" ∷ "tokenIn" ∷ "token" ∷ []);
    output_token = pull_token decoded ("outputToken" ∷ "tokenOut" ∷ "linkToken" ∷ []);
    source_amount = source_amount;
    output_amount = if eqb_ℤ output_amount (pos 0) then source_amount else output_amount;
    counterparty = pull_token decoded ("from" ∷ "sender" ∷ "to" ∷ "recipient" ∷ "depositor" ∷ []);
    source_event_signature = decoded.event_signature;
    raw_log_id = decoded.raw_log_id;
    decoded_event_id = decoded.decoded_event_id;
  }

  unfoldable pub classify_pa_event_as_action :
      DecodedEvent → ContractRegistry → Option (List PaEconomicAction)
  unfolding pa_action pull_amount is_prefix
  classify_pa_event_as_action decoded registry =
      let contract_role = role_of registry decoded.contract_address in
      if is_prefix (codes "pa_") (codes contract_role)
      then elim (lookup decoded.event_name pa_event_name_to_kind) [
        | none ↦ some []
        | some kind ↦
            elim (pull_amount decoded ("sourceAmount" ∷ "amountIn" ∷ "amount" ∷ "value" ∷ [])) [
              | none ↦ none
              | some source_amount ↦
                  elim (pull_amount decoded ("outputAmount" ∷ "amountOut" ∷ "linkAmount" ∷ [])) [
                    | none ↦ none
                    | some output_amount ↦
                        some (pa_action decoded contract_role kind source_amount output_amount ∷ [])
                  ]
            ]
      ]
      else some []

unfoldable pub is_pa_contract_address : String → Bool
is_pa_contract_address address =
    contains (pa_reserves_address ∷ pa_fee_aggregator_address ∷ pa_swap_automator_address ∷ [])
      (lower address)

unfoldable pub pa_role_of : String → Option String
pa_role_of address =
    let addr = lower address in
    if addr == pa_reserves_address
    then some "pa_reserves"
    else if addr == pa_fee_aggregator_address
    then some "pa_fee_aggregator"
    else if addr == pa_swap_automator_address
    then some "pa_swap_automator"
    else none
