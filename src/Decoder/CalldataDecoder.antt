-- ===== src/Decoder/CalldataDecoder.antt =====
-- decoder/calldata_decoder.py: selectors, the decoding of calldata with an ABI, and the transfers that
-- are decoded without one. An exception that leaves a function is a `none`.
use Prim.Native.String.{◌++◌}
use chainlink_economic_ledge.Prelude.{
  ℕ, ◌%◌, String, Option, none, some, List, [], ◌∷◌, map, take, find?, length, Bool, true, false,
  not, ◌&&◌, ◌||◌, eqb, ltb, leb, get_some, string_eq, ◌==◌, if◌then◌else◌, ℤ,
}
use chainlink_economic_ledge.Prelude.Text.{lower}
use chainlink_economic_ledge.Prelude.Slices.{
  text_length, text_take, text_drop, starts_with, from_hex, to_hex,
}
use chainlink_economic_ledge.Prelude.Dict.{Dict, insert}
use chainlink_economic_ledge.Decoder.Types.{Value, DecodedCall, to_int}
use chainlink_economic_ledge.Decoder.Results.{
  DecodeFailureReason, DecodeResult, failed, succeeded, AbiDecode,
}
use chainlink_economic_ledge.Decoder.Abi.{
  AbiInput, input_name, input_type, AbiEntry, Abi, is_some, method_selector,
}

abbrev pub erc20_transfer_selector : String
erc20_transfer_selector = "0xa9059cbb"

abbrev pub erc20_transfer_from_selector : String
erc20_transfer_from_selector = "0x23b872dd"

-- `calldata[2:] if calldata.startswith(("0x", "0X")) else calldata`
unfoldable pub raw_of : String → String
raw_of calldata =
    if starts_with calldata "0x" || starts_with calldata "0X"
    then text_drop 2 calldata
    else calldata

unfoldable pub extract_method_selector : String → String
unfolding raw_of
extract_method_selector calldata =
    if calldata == "" || calldata == "0x" || calldata == "0X"
    then "0x"
    else let raw = raw_of calldata in
      if ltb (text_length raw) 8 then "0x" else "0x" ++ lower (text_take 8 raw)

-- The value of an input of a call.
abbrev pub call_value : String → Value → Value
call_value type_ Value.null = Value.null
call_value type_ (Value.number n) = Value.number n
call_value type_ (Value.text s) = if type_ == "address" then Value.text (lower s) else Value.text s
call_value type_ (Value.bytes b) = Value.text ("0x" ++ to_hex b)

-- `zip(inputs, decoded_values, strict=True)`; `none` where the lengths differ.
unfoldable pub zip_call_values :
    Dict String Value → List AbiInput → List Value → Option (Dict String Value)
zip_call_values params [] [] = some params
zip_call_values params [] (v ∷ values) = none
zip_call_values params (inp ∷ inputs) [] = none
zip_call_values params (inp ∷ inputs) (v ∷ values) =
    zip_call_values (insert (input_name inp) (call_value (input_type inp) v) params) inputs values

-- A transfer, without a sender where the caller is the sender.
pub record Erc20Call : Type 0 where
  pub method : String
  pub from_addr : Option String
  pub to_addr : String
  pub amount : ℤ

module _ (keccak : String → String) where
  -- A name that is missing, and a KeyError, pass an entry over.
  abbrev pub has_selector : Abi → String → AbiEntry → Bool
  has_selector abi target entry = is_some entry.entry_type "function" && elim entry.name [
    | none ↦ false
    | some name ↦ elim (method_selector keccak abi name) [
      | none ↦ false
      | some entry_selector ↦ lower entry_selector == target
    ]
  ]

  unfoldable pub find_method_by_selector : Abi → String → Option AbiEntry
  find_method_by_selector abi selector = find? (has_selector abi (lower selector)) abi.json_abi

module _ (abi_decode : AbiDecode) where
  -- The values of a call, `none` where the codec raises; no inputs have no values.
  abbrev pub call_values : List AbiInput → List ℕ → Option (List Value)
  call_values [] body = some []
  call_values (inp ∷ inputs) body = abi_decode (map input_type (inp ∷ inputs)) body

  -- The addresses that the codec gives are texts.
  abbrev pub transfer_of : List Value → Option (Option Erc20Call)
  transfer_of (Value.text to_addr ∷ amount ∷ []) = elim (to_int amount) [
    | none ↦ none
    | some n ↦ some (
        some
          (record { method = "transfer"; from_addr = none; to_addr = lower to_addr; amount = n }))
  ]
  transfer_of (Value.null ∷ amount ∷ []) = none
  transfer_of (Value.number k ∷ amount ∷ []) = none
  transfer_of (Value.bytes b ∷ amount ∷ []) = none
  transfer_of _ = some none

  abbrev pub transfer_from_of : List Value → Option (Option Erc20Call)
  transfer_from_of (from_addr ∷ to_addr ∷ amount ∷ []) = elim from_addr [
    | Value.text f ↦ elim to_addr [
      | Value.text t ↦ elim (to_int amount) [
        | none ↦ none
        | some n ↦ some (
            some (record {
              method = "transferFrom";
              from_addr = some (lower f);
              to_addr = lower t;
              amount = n;
            }))
      ]
      | _ ↦ none
    ]
    | _ ↦ none
  ]
  transfer_from_of _ = some none

  -- A selector, and the bytes after it.
  unfoldable pub decode_body : String → List ℕ → Option (Option Erc20Call)
  decode_body selector body =
      if selector == erc20_transfer_selector
      then if ltb (length body) 64
        then some none
        else elim (abi_decode ("address" ∷ "uint256" ∷ []) (take 64 body)) [
          | none ↦ some none
          | some values ↦ transfer_of values
        ]
      else if selector == erc20_transfer_from_selector
      then if ltb (length body) 96
        then some none
        else elim (abi_decode ("address" ∷ "address" ∷ "uint256" ∷ []) (take 96 body)) [
          | none ↦ some none
          | some values ↦ transfer_from_of values
        ]
      else some none

  -- The outer `none` is an exception, the inner one the None that is returned.
  unfoldable pub decode_erc20_transfer_calldata : String → Option (Option Erc20Call)
  unfolding extract_method_selector raw_of decode_body
  decode_erc20_transfer_calldata calldata =
      let selector = extract_method_selector calldata in
      let raw = raw_of calldata in
      if leb 8 (text_length raw)
      then elim (from_hex (text_drop 8 raw)) [ none ↦ none | some body ↦ decode_body selector body ]
      else decode_body selector []

module _ (keccak : String → String) (abi_decode : AbiDecode) where
  -- From the method and the bytes after the selector on.
  unfoldable pub decode_method : String → AbiEntry → List ℕ → Option (DecodeResult DecodedCall)
  unfolding zip_call_values
  decode_method selector method body =
      if not (eqb (length body % 32) 0)
      then some (failed "" DecodeFailureReason.malformed_data)
      else elim (call_values abi_decode method.inputs body) [
        | none ↦ some (failed "" DecodeFailureReason.abi_mismatch)
        | some decoded_values ↦ elim (zip_call_values [] method.inputs decoded_values) [
          | none ↦ none
          | some params ↦ some (
              succeeded "" (record {
                raw_trace_call_id = "";
                chain_id = 0;
                block_number = 0;
                tx_hash = "";
                trace_address = [];
                contract_address = none;
                method_name = get_some "<unnamed>" method.name;
                method_selector = selector;
                params = params;
                success = true;
                parent_success = true;
              }))
        ]
      ]

  unfoldable pub decode_calldata : String → Abi → Option (DecodeResult DecodedCall)
  unfolding extract_method_selector raw_of find_method_by_selector decode_method
  decode_calldata calldata abi =
      let selector = extract_method_selector calldata in
      elim (find_method_by_selector keccak abi selector) [
        | none ↦ some (failed "" DecodeFailureReason.unknown_topic)
        | some method ↦
            let body_hex = text_drop 8 (raw_of calldata) in
            elim (if body_hex == "" then some [] else from_hex body_hex) [
              | none ↦ none
              | some body ↦ decode_method selector method body
            ]
      ]
