-- ===== src/Examples/Protocols.antt =====
-- The registry and the semantics of both protocols at concrete events.
use Prim.Native.String.{◌++◌ as str_append}
use chainlink_economic_ledge.Prelude.{
  String, none, some, List, [], ◌∷◌, map, true, ◌≡◌, ◌≢◌, refl, sym, ◌∙◌, string_eq, pos, All,
}
use chainlink_economic_ledge.Prelude.Dict.{lookup}
use chainlink_economic_ledge.Prelude.Text.{lower}
use chainlink_economic_ledge.Decoder.Types
use chainlink_economic_ledge.Protocols.Staking.Action
use chainlink_economic_ledge.Decoder.Types.{Value, DecodedEvent, Phase, ContractMeta, to_int}
use chainlink_economic_ledge.Decoder.ContractRegistry.{
  ContractEntry, ContractRegistry, validate_phases, load, get_phase, list_active, covers,
}
use chainlink_economic_ledge.Decoder.ContractRegistry
use chainlink_economic_ledge.Decoder.ContractRegistry.Lookups.{get_phase_unique}
use chainlink_economic_ledge.Protocols.Staking.Action.{EconomicAction}
use chainlink_economic_ledge.Protocols.Staking.Ledger.Balance.{ledger_of}
use chainlink_economic_ledge.Protocols.Staking.Semantics
use chainlink_economic_ledge.Protocols.Staking.Semantics.{classify_event_as_action}
use chainlink_economic_ledge.Protocols.Staking.Semantics.Migration.{
  leg, debit, credit, classify_event_as_action-migration,
}
use chainlink_economic_ledge.Protocols.PaymentAbstraction.Semantics.{PaActionKind, PaEconomicAction}
use chainlink_economic_ledge.Protocols.PaymentAbstraction.Ledger.{verify_pa_double_entry}
use chainlink_economic_ledge.Protocols.PaymentAbstraction.Ledger.Balance.{
  pa_ledger_of, verify_pa_double_entry-ledger,
}
use chainlink_economic_ledge.Examples.Data.{digest}

abbrev files : List (String × List ContractEntry)
files =
    (
      "staking_v02",
      record {
        address = "0xPool";
        role = some "community_pool";
        deployed_block = some 5;
        phases =
            record { abi_version = "v1"; from_block = 5; to_block = some 9 }
            ∷ record { abi_version = "v2"; from_block = 10; to_block = none }
            ∷ [];
      }
          ∷ [],
    )
    ∷ []

abbrev first_phase : Phase
first_phase = record {
  contract_address = "0xpool";
  abi_version = "v1";
  from_block = 5;
  to_block = some 9;
}

abbrev second_phase : Phase
second_phase = record {
  contract_address = "0xpool";
  abi_version = "v2";
  from_block = 10;
  to_block = none;
}

abbrev pool : ContractMeta
pool = record {
  contract_address = "0xpool";
  role = "community_pool";
  deployed_block = 5;
  phases = first_phase ∷ second_phase ∷ [];
}

abbrev registry : ContractRegistry
registry = ("0xpool", pool) ∷ []

phases_valid : validate_phases pool.phases ≡ true
unfolding validate_phases ContractRegistry.adjacent_ok
phases_valid = refl

files-load : load files ≡ some registry
unfolding load ContractRegistry.load_files ContractRegistry.load_file ContractRegistry.meta_of
    validate_phases ContractRegistry.adjacent_ok lower
files-load = refl

second_found : get_phase registry "0xPOOL" 12 ≡ some second_phase
unfolding get_phase lower
second_found = refl

pool_found : lookup (lower "0xPOOL") registry ≡ some pool
unfolding lower
pool_found = refl

get_phase_unique_example :
    (covers 12 second_phase ≡ true) × All (λ q. covers 12 q ≡ true → q ≡ second_phase) pool.phases
get_phase_unique_example =
    get_phase_unique files registry files-load "0xPOOL" 12 second_phase pool second_found pool_found

abbrev event : String → DecodedEvent
event name = record {
  raw_log_id = "raw";
  decoded_event_id = "decoded";
  chain_id = 1;
  block_number = 7;
  tx_hash = "0xaa";
  log_index = 3;
  contract_address = "0xPool";
  event_name = name;
  event_signature = "0xsig";
  indexed_params = ("staker", Value.text "0xW") ∷ [];
  data_params = ("amount", Value.number (pos 50)) ∷ [];
}

abbrev staked : List EconomicAction
staked =
    record {
      action_id = "action|decoded|stake";
      kind = Action.ActionKind.stake;
      chain_id = 1;
      block_number = 7;
      tx_hash = "0xaa";
      log_index = 3;
      contract_address = "0xPool";
      pool_role = "community_pool";
      wallet = some "0xw";
      amount_link = pos 50;
      source_event_signature = "0xsig";
      raw_log_id = "raw";
      decoded_event_id = "decoded";
    }
    ∷ []

stake_classified : classify_event_as_action digest (event "Staked") registry ≡ some staked
unfolding classify_event_as_action Semantics.base_action Semantics.compute_action_id
    Semantics.extract_amount_link Semantics.extract_wallet Semantics.first_value
    ContractRegistry.role Action.kind_value lower to_int Types.to_text
stake_classified = refl

migrated_amount : Semantics.extract_amount_link (event "Migrated") ≡ some (pos 50)
unfolding Semantics.extract_amount_link Semantics.first_value to_int
migrated_amount = refl

abbrev event_role : String
event_role = Semantics.role_or "unknown" (ContractRegistry.role registry "0xPool")

event_role_known : event_role ≡ "community_pool"
unfolding ContractRegistry.role lower
event_role_known = refl

event_role-ne : (other : String) → "community_pool" ≢ other → event_role ≢ other
event_role-ne other h e = h (sym event_role_known ∙ e)

classify_event_as_action-migration_example :
    (actions : List EconomicAction) × (classify_event_as_action digest (event "Migrated") registry
      ≡ some actions)
    × (map leg (ledger_of digest [] actions)
        ≡ debit (str_append "staking_pool_v01:" "0xPool") (pos 50)
          ∷ credit "migration_proxy" (pos 50)
          ∷ debit "migration_proxy" (pos 50)
          ∷ credit (str_append event_role (str_append ":" "0xPool")) (pos 50)
          ∷ [])
classify_event_as_action-migration_example =
    classify_event_as_action-migration digest (event "Migrated") registry (pos 50) refl
      migrated_amount (λ e. cc) (event_role-ne "unknown" (λ e. cc))
      (event_role-ne "staking_pool_v01" (λ e. cc))

abbrev fee : PaEconomicAction
fee = record {
  action_id = "f1";
  kind = PaActionKind.fee_received;
  chain_id = 1;
  block_number = 7;
  tx_hash = "0xaa";
  log_index = 3;
  contract_address = "0xagg";
  contract_role = "pa_fee_aggregator";
  source_token = some "0xusdc";
  output_token = none;
  source_amount = pos 9;
  output_amount = pos 9;
  counterparty = none;
  source_event_signature = "0xsig";
  raw_log_id = "raw";
  decoded_event_id = "decoded";
}

verify_pa_double_entry-ledger_example :
    verify_pa_double_entry (pa_ledger_of digest (fee ∷ [])) ≡ true
verify_pa_double_entry-ledger_example = verify_pa_double_entry-ledger digest (fee ∷ [])
