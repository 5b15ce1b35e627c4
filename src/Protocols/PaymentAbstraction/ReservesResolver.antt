-- ===== src/Protocols/PaymentAbstraction/ReservesResolver.antt =====
-- protocols/payment_abstraction/reserves_resolver.py: the LINK that lands at the reserves.
pub mod Sum
pub mod Paths
use chainlink_economic_ledge.Prelude.{
  ℕ, zero, suc, String, Option, none, some, List, [], ◌∷◌, ◌++◌, map, filter, Bool, true, false,
  ◌&&◌, get_last?, get_some, string_eq, ◌==◌, if◌then◌else◌, ℤ, pos, ◌+ℤ◌,
}
use chainlink_economic_ledge.Prelude.Text.{lower, parse_int}
use chainlink_economic_ledge.Prelude.Dict.{Dict, lookup, insert}
use chainlink_economic_ledge.Decoder.Types.{TraceTokenCall, Value, to_text}
use chainlink_economic_ledge.Decoder.ProxyResolver.{resolve_implementation_from_config}
use chainlink_economic_ledge.Decoder.TraceTree.{Frame, RawTrace, Calls, frame}
use chainlink_economic_ledge.Protocols.PaymentAbstraction.Semantics.{pa_reserves_address}

abbrev pub link_token_address : String
link_token_address = "0x514910771af9ca656af840dff83e8264ecf986ca"

pub record ReservesInflow : Type 0 where
  pub tx_hash : String
  pub block_number : ℕ
  pub amount : ℤ
  pub sender : String
  pub path : List String
  pub source : String

-- No `continue` is taken.
abbrev pub lands_at_reserves : TraceTokenCall → Bool
lands_at_reserves c =
    lower c.token_address == link_token_address && lower c.to_addr == lower pa_reserves_address

abbrev pub inflow_of_call : TraceTokenCall → ReservesInflow
inflow_of_call c = record {
  tx_hash = c.tx_hash;
  block_number = c.block_number;
  amount = c.amount;
  sender = c.from_addr;
  path = [];
  source = "trace";
}

unfoldable pub resolve_reserves_inflows_from_traces : List TraceTokenCall → List ReservesInflow
resolve_reserves_inflows_from_traces trace_calls =
    map inflow_of_call (filter lands_at_reserves trace_calls)

-- `node.calls[idx]`, `none` past the end.
unfoldable pub call_at : Calls → ℕ → Option RawTrace
call_at Calls.no_calls idx = none
call_at (Calls.call c rest) zero = some c
call_at (Calls.call c rest) (suc idx) = call_at rest idx

abbrev pub calls_of : RawTrace → Calls
calls_of (RawTrace.node f address calls) = calls

-- `if not path or path[-1] != addr: path.append(addr)`, for a node with an address.
abbrev pub extend_path : List String → Option String → List String
extend_path path none = path
extend_path path (some to_addr) =
    let addr = lower to_addr in
    let longer = path ++ addr ∷ [] in
    elim (get_last? path) [ none ↦ longer | some last ↦ if last == addr then path else longer ]

-- The loop over the indices, which stops past the last call.
unfoldable pub walk_down : List String → RawTrace → List ℕ → List String
unfolding call_at
walk_down path root [] = path
walk_down path root (idx ∷ rest) = elim (call_at (calls_of root) idx) [
  | none ↦ path
  | some child ↦ walk_down (extend_path path (frame child).to_addr) child rest
]

unfoldable pub enrich_inflow_with_path : ReservesInflow → RawTrace → List ℕ → ReservesInflow
unfolding walk_down
enrich_inflow_with_path inflow root leaf_trace_address = record inflow {
  path = walk_down [] root leaf_trace_address;
}

unfoldable pub aggregate_from : Dict String ℤ → List ReservesInflow → Dict String ℤ
aggregate_from out [] = out
aggregate_from out (f ∷ inflows) =
    aggregate_from (insert f.tx_hash (get_some (pos 0) (lookup f.tx_hash out) +ℤ f.amount) out)
      inflows

unfoldable pub aggregate_reserves_inflows_per_tx : List ReservesInflow → Dict String ℤ
unfolding aggregate_from
aggregate_reserves_inflows_per_tx inflows = aggregate_from [] inflows

abbrev to_block_is_none : Value → Bool
to_block_is_none Value.null = true
to_block_is_none (Value.number n) = false
to_block_is_none (Value.text s) = false
to_block_is_none (Value.bytes b) = false

-- `int(str(v))`
abbrev int_of_text : Value → Option ℤ
int_of_text v = parse_int (to_text v)

-- The bounds of the phase are read, and may raise, before the implementation is looked up.
unfoldable pub resolve_fee_aggregator_implementation : Dict String Value → Option (Option String)
resolve_fee_aggregator_implementation phase_yaml =
    let implementation : Option (Option String) =
      some (resolve_implementation_from_config phase_yaml) in
    let from_block = get_some (Value.number (pos 0)) (lookup "from_block" phase_yaml) in
    let to_block = get_some Value.null (lookup "to_block" phase_yaml) in
    elim (int_of_text from_block) [
      | none ↦ none
      | some _ ↦
          if to_block_is_none to_block
          then implementation
          else elim (int_of_text to_block) [ none ↦ none | some _ ↦ implementation ]
    ]
