-- ===== src/Decoder/TraceDecoder.antt =====
-- decoder/trace_decoder.py: the calls of a trace, decoded, and the token transfers among them. An
-- exception that leaves a function is a `none`.
pub mod Extraction
pub mod Flags
pub mod Order
pub mod Transfers
use Prim.Native.String.{◌++◌}
use chainlink_economic_ledge.Prelude.{
  ℕ, String, Option, none, some, List, [], ◌∷◌, ◌++◌ as append, map, Bool, true, false, not, ◌&&◌,
  ◌||◌, eqb, get_some, string_eq, ◌==◌, if◌then◌else◌, ℤ, pos,
}
use chainlink_economic_ledge.Prelude.Text.{lower, show_ℕ, join}
use chainlink_economic_ledge.Prelude.Dict.{Dict, lookup}
use chainlink_economic_ledge.Decoder.Types.{
  Value, DecodedCall, TraceTokenCall, Receipt, to_int, to_text,
}
use chainlink_economic_ledge.Decoder.Results.{AbiDecode}
use chainlink_economic_ledge.Decoder.AbiRegistry.{AbiRegistry, get}
use chainlink_economic_ledge.Decoder.TraceTree.{
  Frame, RawTrace, Calls, frame, address_of, flatten_call_tree,
}
use chainlink_economic_ledge.Decoder.CalldataDecoder.{
  erc20_transfer_selector, erc20_transfer_from_selector, Erc20Call, extract_method_selector,
  find_method_by_selector, decode_calldata, decode_erc20_transfer_calldata,
}

-- A name and parameters.
abbrev pub Named : Type 0
Named = String × Dict String Value

abbrev pub is_none {ℓ} : {A : Type ℓ} → Option A → Bool
is_none none = true
is_none (some _) = false

-- `node.error is None and node.revert_reason is None`
abbrev pub succeeds : Frame → Bool
succeeds f = is_none f.error && is_none f.revert_reason

-- `node.input_data or "0x"`
abbrev pub input_or_0x : Frame → String
input_or_0x f = if f.input_data == "" then "0x" else f.input_data

-- `node.to_addr.lower() if node.to_addr else None`
abbrev pub contract_of : Frame → Option String
contract_of f = elim f.to_addr [
  | none ↦ none
  | some to_addr ↦ if to_addr == "" then none else some (lower to_addr)
]

-- The entries of the dictionary of a transfer, without the method and without a None.
abbrev pub erc20_params : Erc20Call → Dict String Value
erc20_params erc20 =
    let rest = ("to", Value.text erc20.to_addr) ∷ ("amount", Value.number erc20.amount) ∷ [] in
    elim erc20.from_addr [ none ↦ rest | some f ↦ ("from", Value.text f) ∷ rest ]

unfoldable pub compute_raw_trace_call_id : (String → String) → String → List ℕ → String
compute_raw_trace_call_id sha256 tx_hash trace_address =
    sha256 ("raw_trace_call|" ++ (lower tx_hash ++ ("|" ++ join "," (map show_ℕ trace_address))))

-- `out.append(decoded)` before the rest, and one part of a list before another.
abbrev pub call_before : Option DecodedCall → Option (List DecodedCall) → Option (List DecodedCall)
call_before none later = none
call_before (some c) none = none
call_before (some c) (some rest) = some (c ∷ rest)

abbrev pub calls_before :
    Option (List DecodedCall) → Option (List DecodedCall) → Option (List DecodedCall)
calls_before none later = none
calls_before (some cs) none = none
calls_before (some cs) (some rest) = some (append cs rest)

module _ (sha256 keccak : String → String) (abi_decode : AbiDecode) (registry : AbiRegistry) where
  -- By the ABI of the called contract, where the registry has one.
  unfoldable pub by_registry : Frame → Option Named
  by_registry f = elim f.to_addr [
    | none ↦ some ("<unknown>", [])
    | some to_addr ↦ elim (get registry (lower to_addr) f.block_number) [
      | none ↦ some ("<unknown>", [])
      | some abi ↦
          elim (find_method_by_selector keccak abi (extract_method_selector (input_or_0x f))) [
            | none ↦ some ("<unknown>", [])
            | some method ↦ elim (decode_calldata keccak abi_decode (input_or_0x f) abi) [
              | none ↦ none
              | some res ↦ elim res.decoded [
                | none ↦ some (get_some "<unnamed>" method.name, [])
                | some decoded_call ↦ some (
                  get_some "<unnamed>" method.name,
                  if res.success then decoded_call.params else [],
                )
              ]
            ]
          ]
    ]
  ]

  -- The transfers of any contract, where the name is still unknown.
  unfoldable pub or_erc20 : Frame → Named → Option Named
  or_erc20 f named =
      if named.0 == "<unknown>"
      then elim (decode_erc20_transfer_calldata abi_decode (input_or_0x f)) [
        | none ↦ none
        | some found ↦ elim found [
          | none ↦ some named
          | some erc20 ↦ some (erc20.method, erc20_params erc20)
        ]
      ]
      else some named

  unfoldable pub name_of : Frame → Option Named
  unfolding by_registry or_erc20
  name_of f = elim (by_registry f) [ none ↦ none | some named ↦ or_erc20 f named ]

  unfoldable pub decoded_node : Frame → List ℕ → Bool → Named → DecodedCall
  decoded_node f address parent_success named = record {
    raw_trace_call_id = compute_raw_trace_call_id sha256 f.tx_hash address;
    chain_id = f.chain_id;
    block_number = f.block_number;
    tx_hash = lower f.tx_hash;
    trace_address = address;
    contract_address = contract_of f;
    method_name = named.0;
    method_selector = extract_method_selector (input_or_0x f);
    params = named.1;
    success = succeeds f;
    parent_success = parent_success;
  }

  unfoldable pub decode_node : Frame → List ℕ → Bool → Option DecodedCall
  unfolding name_of decoded_node
  decode_node f address parent_success = elim (name_of f) [
    | none ↦ none
    | some named ↦ some (decoded_node f address parent_success named)
  ]

  unfoldable mutual
    pub walk : RawTrace → Bool → Option (List DecodedCall)
    walk (RawTrace.node f address calls) parent_success =
        call_before (decode_node f address parent_success)
          (walk_calls calls (parent_success && succeeds f))

    pub walk_calls : Calls → Bool → Option (List DecodedCall)
    walk_calls Calls.no_calls parent_success = some []
    walk_calls (Calls.call c rest) parent_success =
        calls_before (walk c parent_success) (walk_calls rest parent_success)

  unfoldable pub decode_trace_calls : RawTrace → Option (List DecodedCall)
  unfolding walk
  decode_trace_calls trace = walk trace true

unfoldable mutual
  pub walk_trace : RawTrace → (RawTrace → Bool) → List RawTrace
  walk_trace (RawTrace.node f address calls) predicate =
      let below = walk_trace_calls calls predicate in
      if predicate (RawTrace.node f address calls)
      then RawTrace.node f address calls ∷ below
      else below

  pub walk_trace_calls : Calls → (RawTrace → Bool) → List RawTrace
  walk_trace_calls Calls.no_calls predicate = []
  walk_trace_calls (Calls.call c rest) predicate =
      append (walk_trace c predicate) (walk_trace_calls rest predicate)
