-- ===== src/Examples/Traces.antt =====
-- A call tree with a nested call, and one with token transfers of which some were undone.
use chainlink_economic_ledge.Prelude.{
  ℕ, String, Option, none, some, List, [], ◌∷◌, map, filter, ◌≡◌, refl, pos, All,
}
use chainlink_economic_ledge.Prelude.Text.{lower}
use chainlink_economic_ledge.Prelude.Dict.{Dict}
use chainlink_economic_ledge.Prelude.Slices.{text_take, text_drop, starts_with, from_hex}
use chainlink_economic_ledge.Decoder.Types.{
  Value, DecodedCall, TraceTokenCall, Receipt, to_int, to_text,
}
use chainlink_economic_ledge.Decoder.AbiRegistry.{get}
use chainlink_economic_ledge.Decoder.Results.{AbiDecode}
use chainlink_economic_ledge.Decoder.TraceTree.{
  Frame, RawTrace, Calls, frame, address_of, flatten_call_tree, assign_trace_addresses,
}
use chainlink_economic_ledge.Decoder.TraceTree.Addresses.{frame_at, assign_trace_addresses-frame_at}
use chainlink_economic_ledge.Decoder.CalldataDecoder.{decode_erc20_transfer_calldata}
use chainlink_economic_ledge.Decoder.TraceDecoder.{decode_node, decode_trace_calls}
use chainlink_economic_ledge.Decoder.TraceDecoder.Order.{
  IsCallBelow, decode_trace_calls-IsCallBelow,
}
use chainlink_economic_ledge.Decoder.TraceDecoder.Extraction.{
  is_accepted, extract_erc20_transfer_calls,
}
use chainlink_economic_ledge.Decoder.TraceDecoder.Transfers.{
  TookEffect, extract_erc20_transfer_calls-TookEffect,
}

abbrev frame_with_gas : ℕ → Frame
frame_with_gas gas = record {
  chain_id = 1;
  block_number = 7;
  tx_hash = "0xaa";
  call_type = "CALL";
  from_addr = "0xw";
  to_addr = some "0xpool";
  value = pos 0;
  gas = pos gas;
  gas_used = pos gas;
  input_data = "0x";
  output = "0x";
  error = none;
  revert_reason = none;
}

abbrev leaf : ℕ → RawTrace
leaf gas = RawTrace.node (frame_with_gas gas) [] Calls.no_calls

abbrev tree : RawTrace
tree = RawTrace.node (frame_with_gas 9) [] (
    Calls.call (leaf 2) (
      Calls.call (RawTrace.node (frame_with_gas 5) [] (Calls.call (leaf 3) Calls.no_calls))
        Calls.no_calls))

tree_addresses :
    map address_of (flatten_call_tree (assign_trace_addresses tree []))
    ≡ [] ∷ (0 ∷ []) ∷ (1 ∷ []) ∷ (1 ∷ 0 ∷ []) ∷ []
unfolding flatten_call_tree assign_trace_addresses
tree_addresses = refl

assign_trace_addresses-frame_at_example :
    (map frame (flatten_call_tree (assign_trace_addresses tree []))
      ≡ map frame (flatten_call_tree tree))
    × All
        (λ n. frame_at tree (address_of n) ≡ some (frame n))
        (flatten_call_tree (assign_trace_addresses tree []))
assign_trace_addresses-frame_at_example = assign_trace_addresses-frame_at tree

abbrev transfer_input : String
transfer_input =
    "0xa9059cbb00000000000000000000000000000000000000000000000000000000000000010000000000000000000000000000000000000000000000000000000000000005"

abbrev token_frame : ℕ → Option String → Frame
token_frame gas error_ = record (frame_with_gas gas) {
  to_addr = some "0xLink";
  input_data = transfer_input;
  error = error_;
}

-- A transfer, and a call that failed above another transfer.
abbrev token_tree : RawTrace
token_tree = RawTrace.node (frame_with_gas 9) [] (
    Calls.call (RawTrace.node (token_frame 2 none) [] Calls.no_calls) (
      Calls.call
        (RawTrace.node (token_frame 5 (some "out of gas")) []
          (Calls.call (RawTrace.node (token_frame 3 none) [] Calls.no_calls) Calls.no_calls))
        Calls.no_calls))

abbrev same_text : String → String
same_text s = s

-- Always the same receiver and amount.
abbrev fixed_codec : AbiDecode
fixed_codec types data_bytes = some (Value.text "0xTo" ∷ Value.number (pos 5) ∷ [])

abbrev decoded_token_calls : List DecodedCall
decoded_token_calls =
    elim (decode_trace_calls same_text same_text fixed_codec []
      (assign_trace_addresses token_tree [])) [ none ↦ [] | some calls ↦ calls ]

abbrev receipts : Dict String Receipt
receipts =
    (
      "0xaa",
      record {
        chain_id = 1;
        block_number = 7;
        block_hash = "0xb";
        tx_hash = "0xaa";
        tx_index = 0;
        status = 1;
        gas_used = 9;
        effective_gas_price = none;
        cumulative_gas_used = 9;
        contract_address = none;
        logs_count = 0;
      },
    )
    ∷ []

token_calls_decode :
    decode_trace_calls same_text same_text fixed_codec [] (assign_trace_addresses token_tree [])
    ≡ some decoded_token_calls
unfolding decode_trace_calls assign_trace_addresses decode_node get decode_erc20_transfer_calldata
    starts_with text_drop from_hex lower text_take to_int
token_calls_decode = refl

decode_trace_calls-IsCallBelow_example :
    (map (λ c. c.trace_address) decoded_token_calls
      ≡ map address_of (flatten_call_tree (assign_trace_addresses token_tree [])))
    × All (IsCallBelow same_text same_text fixed_codec [] token_tree) decoded_token_calls
decode_trace_calls-IsCallBelow_example =
    decode_trace_calls-IsCallBelow same_text same_text fixed_codec [] token_tree token_calls_decode

abbrev token_transfers : List TraceTokenCall
token_transfers = elim (extract_erc20_transfer_calls decoded_token_calls "0xLINK" receipts) [
  | none ↦ []
  | some ms ↦ ms
]

token_transfers_extracted :
    extract_erc20_transfer_calls decoded_token_calls "0xLINK" receipts ≡ some token_transfers
unfolding extract_erc20_transfer_calls decode_trace_calls assign_trace_addresses decode_node get
    decode_erc20_transfer_calldata starts_with text_drop from_hex lower text_take to_int
token_transfers_extracted = refl

-- Only the transfer that was not undone, without a sender.
transfers_left :
    (map (λ m. m.trace_address) token_transfers ≡ (0 ∷ []) ∷ [])
    × (map (λ m. m.from_addr) token_transfers ≡ "" ∷ [])
unfolding extract_erc20_transfer_calls decode_trace_calls assign_trace_addresses decode_node get
    decode_erc20_transfer_calldata starts_with text_drop from_hex lower text_take to_int to_text
transfers_left = (refl, refl)

extract_erc20_transfer_calls-TookEffect_example :
    All (TookEffect same_text same_text fixed_codec [] token_tree "0xLINK" receipts) token_transfers
    × (map (λ m. m.trace_address) token_transfers
        ≡ map
            (λ c. c.trace_address)
            (filter (is_accepted (lower "0xLINK") receipts) decoded_token_calls))
extract_erc20_transfer_calls-TookEffect_example =
    extract_erc20_transfer_calls-TookEffect same_text same_text fixed_codec [] token_tree "0xLINK"
      receipts token_calls_decode token_transfers_extracted
