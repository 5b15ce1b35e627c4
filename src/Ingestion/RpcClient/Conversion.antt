-- ===== src/Ingestion/RpcClient/Conversion.antt =====
-- The addresses and the block of a converted trace.
use chainlink_economic_ledge.Prelude.{
  ℕ, suc, String, Option, none, some, List, [], ◌∷◌, ◌++◌, ◌≡◌, refl, sym, ap, All, All-append,
  Option-cases, get_some, inl, inr,
}
use chainlink_economic_ledge.Decoder.TraceTree.{
  Frame, RawTrace, Calls, frame, flatten_call_tree, flatten_calls, assign_trace_addresses,
  assign_calls,
}
use chainlink_economic_ledge.Ingestion.RpcClient.{Provider, debug_trace_transaction}
use chainlink_economic_ledge.Ingestion.RpcClient.CallTracer.{
  TraceEntries, TraceDict, TraceDicts, frame_of, trace_of, first_call, hex_or_zero,
  trace_dict_to_raw_trace, trace_dicts,
}

-- What was made of a tree: the frame of its root, its address and its calls.
record Parts (f : Option Frame) (address : List ℕ) (calls : Option Calls) (t : RawTrace)
    : Type 0 where
  root : Frame
  below : Calls
  frame_made : f ≡ some root
  calls_made : calls ≡ some below
  made : t ≡ RawTrace.node root address below

trace_of-Parts :
    (f : Option Frame) (address : List ℕ) (calls : Option Calls) {t : RawTrace}
    → trace_of f address calls ≡ some t
    → Parts f address calls t
trace_of-Parts none address calls same = absurd (cc same)
trace_of-Parts (some f) address none same = absurd (cc same)
trace_of-Parts (some f) address (some calls) same = record {
  root = f;
  below = calls;
  frame_made = refl;
  calls_made = refl;
  made = cc same;
}

-- A first call and the rest, of which a list of calls was made.
record CallParts (c : Option RawTrace) (rest : Option Calls) (calls : Calls) : Type 0 where
  child : RawTrace
  others : Calls
  child_made : c ≡ some child
  others_made : rest ≡ some others
  made : calls ≡ Calls.call child others

first_call-CallParts :
    (c : Option RawTrace) (rest : Option Calls) {calls : Calls}
    → first_call c rest ≡ some calls
    → CallParts c rest calls
first_call-CallParts none rest same = absurd (cc same)
first_call-CallParts (some c) none same = absurd (cc same)
first_call-CallParts (some c) (some rest) same = record {
  child = c;
  others = rest;
  child_made = refl;
  others_made = refl;
  made = cc same;
}

-- A frame of the transaction, in a block.
abbrev pub IsIn : ℕ → String → ℕ → RawTrace → Type 0
IsIn chain_id tx_hash block_number n =
    ((frame n).chain_id ≡ chain_id)
    × ((frame n).tx_hash ≡ tx_hash)
    × ((frame n).block_number ≡ block_number)

module _ (chain_id : ℕ) (tx_hash : String) (block_number : ℕ) where
  frame_of-IsIn :
      (d : TraceEntries) (address : List ℕ) (calls : Calls) {f : Frame}
      → frame_of d chain_id tx_hash block_number ≡ some f
      → IsIn chain_id tx_hash block_number (RawTrace.node f address calls)
  unfolding frame_of
  frame_of-IsIn d address calls {f = f} same = elim (Option-cases (hex_or_zero d.value)) [
    | inl e ↦ absurd (cc (rw e at same))
    | inr (value, value_eq) ↦ elim (Option-cases (hex_or_zero d.gas)) [
      | inl e ↦ absurd (cc (rw (value_eq, e) at same))
      | inr (gas, gas_eq) ↦ elim (Option-cases (hex_or_zero d.gas_used)) [
        | inl e ↦ absurd (cc (rw (value_eq, gas_eq, e) at same))
        | inr (gas_used, gas_used_eq) ↦
            let made = sym (rw (value_eq, gas_eq, gas_used_eq) at same) in
            (
              ap (λ o. (get_some f o).chain_id) made,
              ap (λ o. (get_some f o).tx_hash) made,
              ap (λ o. (get_some f o).block_number) made,
            )
      ]
    ]
  ]

  mutual
    unfolding trace_dict_to_raw_trace trace_dicts assign_trace_addresses assign_calls
        flatten_call_tree flatten_calls

    trace_dict_to_raw_trace-assign :
        (d : TraceDict) (address : List ℕ) {t : RawTrace}
        → trace_dict_to_raw_trace chain_id tx_hash block_number d address ≡ some t
        → (assign_trace_addresses t address ≡ t)
          × All (IsIn chain_id tx_hash block_number) (flatten_call_tree t)
    trace_dict_to_raw_trace-assign (TraceDict.entries d calls) address same =
        let parts =
          trace_of-Parts (frame_of d chain_id tx_hash block_number) address
            (trace_dicts chain_id tx_hash block_number calls address 0) same in
        let below = trace_dicts-assign calls address 0 parts.calls_made in
        rw parts.made (
          ap (λ cs. RawTrace.node parts.root address cs) below.0,
          (frame_of-IsIn d address parts.below parts.frame_made, below.1),
        )

    trace_dicts-assign :
        (ds : TraceDicts) (address : List ℕ) (i : ℕ) {calls : Calls}
        → trace_dicts chain_id tx_hash block_number ds address i ≡ some calls
        → (assign_calls calls address i ≡ calls)
          × All (IsIn chain_id tx_hash block_number) (flatten_calls calls)
    trace_dicts-assign TraceDicts.no_calls address i {calls = calls} same =
        let empty : Calls.no_calls ≡ calls = cc same in rw (← empty) (refl, tt)
    trace_dicts-assign (TraceDicts.call d rest) address i same =
        let parts =
          first_call-CallParts
            (trace_dict_to_raw_trace chain_id tx_hash block_number d (address ++ i ∷ []))
            (trace_dicts chain_id tx_hash block_number rest address (suc i)) same in
        let first = trace_dict_to_raw_trace-assign d (address ++ i ∷ []) parts.child_made in
        let others = trace_dicts-assign rest address (suc i) parts.others_made in
        rw parts.made (
          rw (first.0, others.0) refl,
          All-append (IsIn chain_id tx_hash block_number) (flatten_call_tree parts.child)
              (flatten_calls parts.others) first.1 others.1,
        )

-- Whatever the node answers, a trace that debug_trace_transaction returns is addressed the way
-- assign_trace_addresses addresses it from the root, and all its frames name the transaction that
-- was asked for, the chain of the node, and block 0.
pub debug_trace_transaction-assign :
    (hex : List ℕ → String) (keccak : String → String) (w3 : Provider) (tx_hash tracer : String)
    {t : RawTrace}
    → debug_trace_transaction hex keccak w3 tx_hash tracer ≡ some t
    → (assign_trace_addresses t [] ≡ t) × All (IsIn w3.chain_id tx_hash 0) (flatten_call_tree t)
unfolding debug_trace_transaction
debug_trace_transaction-assign hex keccak w3 tx_hash tracer same =
    elim (Option-cases (w3.debug_trace tx_hash tracer)) [
      | inl e ↦ absurd (cc (rw (debug_trace_transaction, e) at same))
      | inr (answer, e) ↦
          trace_dict_to_raw_trace-assign w3.chain_id tx_hash 0 answer []
            (rw (debug_trace_transaction, e) at same)
    ]
