-- ===== src/Examples/Decoding.antt =====
-- A log of a transfer, its registry, and a topic.
use mathlib.Core.List.{map}
use chainlink_economic_ledge.Prelude.{
  String, Option, none, some, List, [], ◌∷◌, Bool, true, false, ◌≡◌, refl, length, length-map,
  map_some, pos, string_eq,
}
use chainlink_economic_ledge.Prelude.Text.{lower, join}
use chainlink_economic_ledge.Prelude.Slices.{text_drop, starts_with, from_hex}
use chainlink_economic_ledge.Decoder.Types.{Value, RawLog}
use chainlink_economic_ledge.Decoder.Results.{AbiDecode}
use chainlink_economic_ledge.Decoder.Abi.{AbiInput, Components, AbiEntry, Abi, event_signature}
use chainlink_economic_ledge.Decoder.ContractRegistry.{
  ContractRegistry, PhaseEntry, load, get_phase,
}
use chainlink_economic_ledge.Decoder.AbiRegistry.{
  ContractDef, AbiRegistry, load_from_config, get, phase_of,
}
use chainlink_economic_ledge.Decoder.AbiRegistry.Agreement.{entries_of, get-get_phase}
use chainlink_economic_ledge.Decoder.EventDecoder.{decode_log, decode_logs_batch, topic_to_address}
use chainlink_economic_ledge.Decoder.EventDecoder.Outcome.{IsCodec, Settles, decode_log-Settles}
use chainlink_economic_ledge.Decoder.EventDecoder.Batch.{Collects, decode_logs_batch-Collects}

abbrev same_text : String → String
same_text s = s

-- A codec that gives the number of bytes for each type.
abbrev counting_codec : AbiDecode
counting_codec types data_bytes = some (map (λ t. Value.number (pos (length data_bytes))) types)

abbrev transfer_event : AbiEntry
transfer_event = record {
  entry_type = some "event";
  name = some "Transfer";
  anonymous = false;
  inputs =
      AbiInput.input "from" "address" true Components.no_components
      ∷ AbiInput.input "value" "uint256" false Components.no_components
      ∷ [];
}

abbrev link_abi : Abi
link_abi = record { abi_version = "v1"; json_abi = transfer_event ∷ [] }

abbrev transfer_log : RawLog
transfer_log = record {
  chain_id = 1;
  block_number = 7;
  block_hash = "0xb";
  tx_hash = "0xAA";
  tx_index = 0;
  log_index = 3;
  address = "0xLink";
  topics =
      "0xTransfer(address,uint256)"
      ∷ "0x000000000000000000000000aabbccddeeff00112233445566778899aabbccdd" ∷ [];
  log_data = "0x0000000000000000000000000000000000000000000000000000000000000005";
}

counting_codec-IsCodec : IsCodec counting_codec
counting_codec-IsCodec types data_bytes values e =
    let same : map (λ t. Value.number (pos (length data_bytes))) types ≡ values = cc e in
    rw (← same) (length-map (λ t. Value.number (pos (length data_bytes))) types)

decode_log-Settles_example :
    Settles same_text same_text counting_codec transfer_log
      (decode_log same_text same_text counting_codec transfer_log link_abi)
decode_log-Settles_example =
    decode_log-Settles same_text same_text counting_codec counting_codec-IsCodec transfer_log
      link_abi

abbrev log_succeeds : Bool
log_succeeds = elim (decode_log same_text same_text counting_codec transfer_log link_abi) [
  | none ↦ false
  | some r ↦ r.success
]

transfer_log_decodes : log_succeeds ≡ true
unfolding decode_log event_signature lower join starts_with topic_to_address text_drop from_hex
transfer_log_decodes = refl

abbrev phase_entry : PhaseEntry
phase_entry = record { abi_version = "v1"; from_block = 5; to_block = none }

abbrev link_contract : ContractDef
link_contract = record {
  address = "0xLINK";
  role = some "link_token";
  deployed_block = some 5;
  phases = record { entry = phase_entry; abi_file = none } ∷ [];
}

abbrev files : List (String × List ContractDef)
files = ("link_token", link_contract ∷ []) ∷ []

abbrev abis : String → Option (List AbiEntry)
abis file = some (transfer_event ∷ [])

abbrev abi_registry : AbiRegistry
abi_registry = ("0xlink", (phase_of "0xlink" phase_entry, link_abi) ∷ []) ∷ []

abbrev contract_registry : ContractRegistry
contract_registry =
    (
      "0xlink",
      record {
        contract_address = "0xlink";
        role = "link_token";
        deployed_block = 5;
        phases = phase_of "0xlink" phase_entry ∷ [];
      },
    )
    ∷ []

abis_load : load_from_config abis files ≡ some abi_registry
unfolding load_from_config lower
abis_load = refl

contracts_load : load (entries_of files) ≡ some contract_registry
unfolding load lower
contracts_load = refl

get-get_phase_example :
    map_some (λ abi. abi.abi_version) (get abi_registry "0xLink" 7)
    ≡ map_some (λ p. p.abi_version) (get_phase contract_registry "0xLink" 7)
get-get_phase_example =
    get-get_phase abis files abi_registry contract_registry abis_load contracts_load "0xLink" 7

decode_logs_batch-Collects_example :
    Collects same_text same_text counting_codec abi_registry (transfer_log ∷ transfer_log ∷ []) (
      decode_logs_batch same_text same_text counting_codec abi_registry
        (transfer_log ∷ transfer_log ∷ []))
decode_logs_batch-Collects_example =
    decode_logs_batch-Collects same_text same_text counting_codec abi_registry
      counting_codec-IsCodec (transfer_log ∷ transfer_log ∷ [])

abbrev holder_digits : String
holder_digits = "AAbbccddeeff00112233445566778899aabbccdd"
