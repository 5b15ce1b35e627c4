-- ===== src/Decoder/TraceDecoder/Order.antt =====
-- The decoded calls stand in the order of the frames of the tree.
use mathlib.Core.List.{map-append}
use chainlink_economic_ledge.Prelude.{
  ℕ, String, Option, none, some, List, [], ◌∷◌, ◌++◌, map, filter, filter-append, Bool, true, ◌&&◌,
  ◌≡◌, refl, ap, ◌↔◌, All, All-imp, if◌then◌else◌,
}
use chainlink_economic_ledge.Decoder.Types.{DecodedCall}
use chainlink_economic_ledge.Decoder.Results.{AbiDecode}
use chainlink_economic_ledge.Decoder.AbiRegistry.{AbiRegistry}
use chainlink_economic_ledge.Decoder.TraceTree.{
  Frame, RawTrace, Calls, address_of, flatten_call_tree, flatten_calls, assign_trace_addresses,
}
use chainlink_economic_ledge.Decoder.TraceTree.Addresses.{frame_at}
use chainlink_economic_ledge.Decoder.CalldataDecoder.{extract_method_selector}
use chainlink_economic_ledge.Prelude.Text.{lower}
use chainlink_economic_ledge.Decoder.TraceDecoder.{
  succeeds, is_none, contract_of, input_or_0x, name_of, compute_raw_trace_call_id, call_before,
  calls_before, decoded_node, decode_node, walk, walk_calls, decode_trace_calls, walk_trace,
  walk_trace_calls,
}
use chainlink_economic_ledge.Decoder.TraceDecoder.Flags.{
  AllOf, IsNodeBelow, walk-IsNodeBelow, decode_node-named, above_succeed,
}

-- The calls have the addresses of the nodes, in their order.
abbrev Follow : Option (List DecodedCall) → List RawTrace → Type 0
Follow none nodes = Unit
Follow (some calls) nodes = map (λ c. c.trace_address) calls ≡ map address_of nodes

call_before-Follow :
    (c : Option DecodedCall) (later : Option (List DecodedCall)) (t : RawTrace)
    (nodes : List RawTrace)
    → ((a : DecodedCall) → c ≡ some a → a.trace_address ≡ address_of t)
    → Follow later nodes
    → Follow (call_before c later) (t ∷ nodes)
call_before-Follow none later t nodes h below = tt
call_before-Follow (some a) none t nodes h below = tt
call_before-Follow (some a) (some rest) t nodes h below = rw (h a refl, below) refl

calls_before-Follow :
    (cs later : Option (List DecodedCall)) (ms nodes : List RawTrace)
    → Follow cs ms
    → Follow later nodes
    → Follow (calls_before cs later) (ms ++ nodes)
calls_before-Follow none later ms nodes h below = tt
calls_before-Follow (some cs) none ms nodes h below = tt
calls_before-Follow (some cs) (some rest) ms nodes h below =
    rw (map-append (λ c. c.trace_address) cs rest, map-append address_of ms nodes, h, below) refl

module _ (sha256 keccak : String → String) (abi_decode : AbiDecode) (registry : AbiRegistry) where
  decode_node-address :
      (f : Frame) (address : List ℕ) (parent : Bool) (c : DecodedCall)
      → decode_node sha256 keccak abi_decode registry f address parent ≡ some c
      → c.trace_address ≡ address
  unfolding decoded_node
  decode_node-address f address parent c e =
      ap (λ d. d.trace_address)
        (decode_node-named sha256 keccak abi_decode registry f address parent e).1

  mutual
    unfolding walk flatten_call_tree

    walk-Follow :
        (t : RawTrace) (parent : Bool)
        → Follow (walk sha256 keccak abi_decode registry t parent) (flatten_call_tree t)
    walk-Follow (RawTrace.node f address calls) parent =
        call_before-Follow (decode_node sha256 keccak abi_decode registry f address parent)
          (walk_calls sha256 keccak abi_decode registry calls (parent && succeeds f))
          (RawTrace.node f address calls) (flatten_calls calls)
          (decode_node-address f address parent) (walk_calls-Follow calls (parent && succeeds f))

    walk_calls-Follow :
        (calls : Calls) (parent : Bool)
        → Follow (walk_calls sha256 keccak abi_decode registry calls parent) (flatten_calls calls)
    walk_calls-Follow Calls.no_calls parent = refl
    walk_calls-Follow (Calls.call c rest) parent =
        calls_before-Follow (walk sha256 keccak abi_decode registry c parent)
          (walk_calls sha256 keccak abi_decode registry rest parent) (flatten_call_tree c)
          (flatten_calls rest) (walk-Follow c parent) (walk_calls-Follow rest parent)

  -- What the calls of an addressed tree were built of, and the order of their addresses.
  pub decode_trace_calls-IsNodeBelow :
      (t : RawTrace) {calls : List DecodedCall}
      → decode_trace_calls sha256 keccak abi_decode registry (assign_trace_addresses t [])
        ≡ some calls
      → (map (λ c. c.trace_address) calls
          ≡ map address_of (flatten_call_tree (assign_trace_addresses t [])))
        × All (IsNodeBelow sha256 keccak abi_decode registry t [] true) calls
  unfolding decode_trace_calls
  decode_trace_calls-IsNodeBelow t {calls} e = (rw e at order, rw e at flags)
    where
      order :
          Follow
            (decode_trace_calls sha256 keccak abi_decode registry (assign_trace_addresses t []))
            (flatten_call_tree (assign_trace_addresses t []))
      order = walk-Follow (assign_trace_addresses t []) true

      flags :
          AllOf
            (IsNodeBelow sha256 keccak abi_decode registry t [] true)
            (decode_trace_calls sha256 keccak abi_decode registry (assign_trace_addresses t []))
      flags = walk-IsNodeBelow sha256 keccak abi_decode registry t [] true

-- The call stands for the frame that its address leads to from the root. It carries the frame's data,
-- its method and its own success, and its flag for the ancestors says whether the frames above that
-- one have succeeded.
pub record IsCallBelow (sha256 keccak : String → String) (abi_decode : AbiDecode)
    (registry : AbiRegistry) (t : RawTrace) (c : DecodedCall) : Type 0 where
  pub found : Frame
  pub leads : frame_at t c.trace_address ≡ some found
  pub raw_trace_call_id :
      c.raw_trace_call_id ≡ compute_raw_trace_call_id sha256 found.tx_hash c.trace_address
  pub chain_id : c.chain_id ≡ found.chain_id
  pub block_number : c.block_number ≡ found.block_number
  pub tx_hash : c.tx_hash ≡ lower found.tx_hash
  pub contract_address : c.contract_address ≡ contract_of found
  pub method_selector : c.method_selector ≡ extract_method_selector (input_or_0x found)
  pub method : name_of sha256 keccak abi_decode registry found ≡ some (c.method_name, c.params)
  pub success : (c.success ≡ true) ↔ ((found.error ≡ none) × (found.revert_reason ≡ none))
  pub parent_success : c.parent_success ≡ above_succeed t c.trace_address

both_none : (o p : Option String) → ((is_none o && is_none p) ≡ true) ↔ ((o ≡ none) × (p ≡ none))
both_none none none = (λ h. (refl, refl), λ h. refl)
both_none none (some s) = (λ h. cc h, λ h. cc h.1)
both_none (some s) p = (λ h. cc h, λ h. cc h.0)

succeeds_iff : (f : Frame) → (succeeds f ≡ true) ↔ ((f.error ≡ none) × (f.revert_reason ≡ none))
succeeds_iff f = both_none f.error f.revert_reason

module _ (sha256 keccak : String → String) (abi_decode : AbiDecode) (registry : AbiRegistry) where
  node-IsCallBelow :
      (t : RawTrace) (c : DecodedCall)
      → IsNodeBelow sha256 keccak abi_decode registry t [] true c
      → IsCallBelow sha256 keccak abi_decode registry t c
  unfolding decoded_node
  node-IsCallBelow t c h = rw h.decodes (record {
    found = h.found;
    leads = h.leads;
    raw_trace_call_id = refl;
    chain_id = refl;
    block_number = refl;
    tx_hash = refl;
    contract_address = refl;
    method_selector = refl;
    method = h.names;
    success = succeeds_iff h.found;
    parent_success = refl;
  })

  -- When the decoding of an addressed tree returns, its calls are one for each frame, in pre-order.
  -- Each call carries the data and the method of the frame that its address leads to; it is
  -- successful exactly when that frame has no error and no revert reason, and its flag for the
  -- ancestors says whether all frames above that one have succeeded.
  pub decode_trace_calls-IsCallBelow :
      (t : RawTrace) {calls : List DecodedCall}
      → decode_trace_calls sha256 keccak abi_decode registry (assign_trace_addresses t [])
        ≡ some calls
      → (map (λ c. c.trace_address) calls
          ≡ map address_of (flatten_call_tree (assign_trace_addresses t [])))
        × All (IsCallBelow sha256 keccak abi_decode registry t) calls
  decode_trace_calls-IsCallBelow t {calls} e =
      let built = decode_trace_calls-IsNodeBelow sha256 keccak abi_decode registry t e in
      (built.0, All-imp (node-IsCallBelow t) calls built.1)

mutual
  unfolding walk_trace flatten_call_tree

  -- Walking a trace with a predicate is filtering the frames of the tree.
  pub walk_trace-filter :
      (t : RawTrace) (predicate : RawTrace → Bool)
      → walk_trace t predicate ≡ filter predicate (flatten_call_tree t)
  walk_trace-filter (RawTrace.node f address calls) predicate =
      ap
        (λ below.
          if predicate (RawTrace.node f address calls)
          then RawTrace.node f address calls ∷ below
          else below)
        (walk_trace_calls-filter calls predicate)

  walk_trace_calls-filter :
      (calls : Calls) (predicate : RawTrace → Bool)
      → walk_trace_calls calls predicate ≡ filter predicate (flatten_calls calls)
  walk_trace_calls-filter Calls.no_calls predicate = refl
  walk_trace_calls-filter (Calls.call c rest) predicate =
      rw
        (
          filter-append predicate (flatten_call_tree c) (flatten_calls rest),
          walk_trace-filter c predicate,
          walk_trace_calls-filter rest predicate,
        )
        refl
