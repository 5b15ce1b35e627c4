-- ===== src/Decoder/TraceDecoder/Extraction.antt =====
-- decoder/trace_decoder.py, `extract_erc20_transfer_calls`: the successful transfers of one token.
use chainlink_economic_ledge.Prelude.{
  String, Option, none, some, List, [], ◌∷◌, Bool, false, ◌&&◌, ◌||◌, eqb, get_some, string_eq,
  ◌==◌, if◌then◌else◌, pos,
}
use chainlink_economic_ledge.Prelude.Text.{lower}
use chainlink_economic_ledge.Prelude.Dict.{Dict, lookup}
use chainlink_economic_ledge.Decoder.Types.{
  Value, DecodedCall, TraceTokenCall, Receipt, to_int, to_text,
}
use chainlink_economic_ledge.Decoder.CalldataDecoder.{
  erc20_transfer_selector, erc20_transfer_from_selector,
}

-- `params.get(name, default)`
abbrev pub param_or : Value → String → Dict String Value → Value
param_or default name params = get_some default (lookup name params)

-- The call is of the token.
abbrev pub is_of_token : String → DecodedCall → Bool
is_of_token target_token call = elim call.contract_address [
  | none ↦ false
  | some contract ↦ lower contract == target_token
]

-- By name or by selector.
abbrev pub is_transfer_call : DecodedCall → Bool
is_transfer_call call =
    call.method_name == "transfer"
    || call.method_name == "transferFrom"
    || call.method_selector == erc20_transfer_selector
    || call.method_selector == erc20_transfer_from_selector

abbrev pub tx_succeeded : Dict String Receipt → DecodedCall → Bool
tx_succeeded receipts_by_tx call = elim (lookup (lower call.tx_hash) receipts_by_tx) [
  | none ↦ false
  | some receipt ↦ eqb receipt.status 1
]

-- No `continue` of the loop is taken.
abbrev pub is_accepted : String → Dict String Receipt → DecodedCall → Bool
is_accepted target_token receipts_by_tx call =
    is_of_token target_token call
    && is_transfer_call call
    && (call.success && call.parent_success)
    && tx_succeeded receipts_by_tx call

-- `none` is the exception of `int`.
unfoldable pub token_call_of : String → DecodedCall → Option TraceTokenCall
token_call_of target_token call =
    let amount =
      param_or (param_or (Value.number (pos 0)) "value" call.params) "amount" call.params in
    elim (to_int amount) [
      | none ↦ none
      | some n ↦ some (record {
        raw_trace_call_id = call.raw_trace_call_id;
        chain_id = call.chain_id;
        block_number = call.block_number;
        tx_hash = call.tx_hash;
        trace_address = call.trace_address;
        token_address = target_token;
        method_name =
            if call.method_selector == erc20_transfer_selector || call.method_name == "transfer"
            then "transfer"
            else "transferFrom";
        from_addr = lower (to_text (param_or (Value.text "") "from" call.params));
        to_addr = lower (to_text (param_or (Value.text "") "to" call.params));
        amount = n;
      })
    ]

abbrev pub token_call_before :
    Option TraceTokenCall → Option (List TraceTokenCall) → Option (List TraceTokenCall)
token_call_before none later = none
token_call_before (some m) none = none
token_call_before (some m) (some rest) = some (m ∷ rest)

unfoldable pub extract_calls :
    String → Dict String Receipt → List DecodedCall → Option (List TraceTokenCall)
unfolding token_call_of
extract_calls target_token receipts_by_tx [] = some []
extract_calls target_token receipts_by_tx (call ∷ calls) =
    let rest = extract_calls target_token receipts_by_tx calls in
    if is_accepted target_token receipts_by_tx call
    then token_call_before (token_call_of target_token call) rest
    else rest

unfoldable pub extract_erc20_transfer_calls :
    List DecodedCall → String → Dict String Receipt → Option (List TraceTokenCall)
unfolding extract_calls
extract_erc20_transfer_calls decoded_calls token_address receipts_by_tx =
    extract_calls (lower token_address) receipts_by_tx decoded_calls
