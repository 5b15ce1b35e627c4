-- ===== src/Examples/Rpc.antt =====
-- A node with a call that calls another, a receipt for each transaction, and blocks without
-- transactions; the file of a DAG, and a dry run.
use chainlink_economic_ledge.Prelude.{
  ℕ, String, Option, none, some, List, [], ◌∷◌, map, ◌≡◌, ◌⊎◌, refl, pos, All, false, arith,
  contains, string_eq, if◌then◌else◌, eqb, ◌==◌,
}
use chainlink_economic_ledge.Prelude.Slices.{parse_hex_int}
use chainlink_economic_ledge.Prelude.Collect.{collect}
use chainlink_economic_ledge.Prelude.Dict.{Dict, lookup}
use chainlink_economic_ledge.Decoder.TraceTree.{
  RawTrace, address_of, flatten_call_tree, assign_trace_addresses,
}
use chainlink_economic_ledge.Ingestion.RpcClient.{
  Provider, HexValue, ReceiptAnswer, get_transaction_receipt, debug_trace_transaction,
  supports_debug_trace, without_0x, big_endian,
}
use chainlink_economic_ledge.Ingestion.RpcClient.CallTracer.{
  TraceEntries, TraceDict, TraceDicts, frame_of, trace_dict_to_raw_trace,
}
use chainlink_economic_ledge.Ingestion.RpcClient.Conversion.{IsIn, debug_trace_transaction-assign}
use chainlink_economic_ledge.Ingestion.Fetchers.{
  fetch_receipts_for_txs, fetch_transactions_for_block, fetch_trace, fetch_traces_for_txs,
  fetch_traces_into,
}
use chainlink_economic_ledge.Ingestion.Fetchers.Batches.{
  fetch_receipts_for_txs-collect, fetch_transactions_for_block-nil,
}
use chainlink_economic_ledge.Ingestion.Fetchers.Traces.{fetch_traces_for_txs-lookup}
use chainlink_economic_ledge.Ingestion.BqClient.{
  DryRun, Estimate, QueryParameter, QueryValue, Scalar, build_query_params, estimate_bytes,
}
use chainlink_economic_ledge.Ingestion.Checkpoint.Dag.{
  get_last_processed_block, set_last_processed_block, get_last_processed_block-set,
}

abbrev hex : List ℕ → String
hex bs = "0x01"

abbrev keccak : String → String
keccak s = "70a08231"

abbrev call_entries : Option String → TraceEntries
call_entries value = record {
  call_type = some "call";
  from_addr = some "0xA";
  to_addr = some "0xB";
  value = value;
  gas = some "0x10";
  gas_used = none;
  input_data = none;
  output = none;
  error = none;
  revert_reason = none;
}

abbrev call_dict : TraceDict
call_dict = TraceDict.entries (call_entries (some "0xff")) (
    TraceDicts.call (TraceDict.entries (call_entries none) TraceDicts.no_calls) (
      TraceDicts.call (TraceDict.entries (call_entries none) TraceDicts.no_calls)
        TraceDicts.no_calls))

abbrev receipt_answer : String → ReceiptAnswer
receipt_answer h = record {
  block_number = 7;
  block_hash = HexValue.other "0xb";
  transaction_hash = HexValue.other h;
  transaction_index = 0;
  status = 1;
  gas_used = 9;
  effective_gas_price = none;
  cumulative_gas_used = 9;
  contract_address = some "0xC";
  logs = [];
}

abbrev node : Provider
node = record {
  chain_id = 1;
  logs = λ filter. some [];
  block = λ id full_txs. some (record {
    number = 7;
    hash = HexValue.other "0xb";
    parent_hash = HexValue.other "0xa";
    timestamp = 100;
    miner = none;
    base_fee_per_gas = none;
    transactions = HexValue.other "0xt" ∷ [];
  });
  receipt = λ h. some (receipt_answer h);
  eth_call = λ token call_data block. some (1 ∷ 2 ∷ []);
  debug_trace = λ h tracer. if h == "0xt" then some call_dict else none;
}

abbrev converted : RawTrace
converted = elim (debug_trace_transaction hex keccak node "0xt" "callTracer") [
  | some t ↦ t
  | none ↦
      RawTrace.node
        (record {
          chain_id = 0;
          block_number = 0;
          tx_hash = "";
          call_type = "";
          from_addr = "";
          to_addr = none;
          value = pos 0;
          gas = pos 0;
          gas_used = pos 0;
          input_data = "";
          output = "";
          error = none;
          revert_reason = none;
        })
        [] chainlink_economic_ledge.Decoder.TraceTree.Calls.no_calls
]

converts : debug_trace_transaction hex keccak node "0xt" "callTracer" ≡ some converted
unfolding debug_trace_transaction trace_dict_to_raw_trace frame_of parse_hex_int
converts = refl

converted_addresses : map address_of (flatten_call_tree converted) ≡ [] ∷ (0 ∷ []) ∷ (1 ∷ []) ∷ []
unfolding debug_trace_transaction trace_dict_to_raw_trace frame_of parse_hex_int flatten_call_tree
converted_addresses = refl

debug_trace_transaction-assign_example :
    (assign_trace_addresses converted [] ≡ converted)
    × All (IsIn 1 "0xt" 0) (flatten_call_tree converted)
debug_trace_transaction-assign_example =
    debug_trace_transaction-assign hex keccak node "0xt" "callTracer" converts

fetch_receipts_for_txs-collect_example :
    fetch_receipts_for_txs hex keccak node ("0x1" ∷ "0x2" ∷ "0x3" ∷ []) (pos 2)
    ≡ collect (get_transaction_receipt hex keccak node) ("0x1" ∷ "0x2" ∷ "0x3" ∷ [])
fetch_receipts_for_txs-collect_example =
    fetch_receipts_for_txs-collect hex keccak node ("0x1" ∷ "0x2" ∷ "0x3" ∷ []) 2 (omega arith)

fetch_transactions_for_block-nil_example :
    (fetch_transactions_for_block hex keccak node 7 ≡ none)
    ⊎ (fetch_transactions_for_block hex keccak node 7 ≡ some [])
fetch_transactions_for_block-nil_example = fetch_transactions_for_block-nil hex keccak node 7

abbrev fetched : Dict String RawTrace
fetched = ("0xt", converted) ∷ []

fetches : fetch_traces_for_txs hex keccak node ("0xt" ∷ "0xt" ∷ []) ≡ some fetched
unfolding fetch_traces_for_txs fetch_traces_into fetch_trace debug_trace_transaction
    trace_dict_to_raw_trace frame_of parse_hex_int
fetches = refl

fetch_traces_for_txs-lookup_example : lookup "0xt" fetched ≡ (
    if contains {A = String} ("0xt" ∷ "0xt" ∷ []) "0xt"
    then fetch_trace hex keccak node "0xt"
    else none)
fetch_traces_for_txs-lookup_example =
    fetch_traces_for_txs-lookup hex keccak node ("0xt" ∷ "0xt" ∷ []) fetches "0xt"

texts :
    (without_0x false "0x00x1" ≡ "01")
    × (without_0x false "00x" ≡ "0")
    × (big_endian 0 (1 ∷ 2 ∷ []) ≡ 258)
    × (supports_debug_trace hex keccak node none ≡ (false, some false))
unfolding without_0x big_endian supports_debug_trace debug_trace_transaction
texts = (refl, refl, refl, refl)

get_last_processed_block-set_example :
    get_last_processed_block 1 "stake" (set_last_processed_block 1 "stake" 0 "run" []) ≡ (
      if ◌==◌ {A = String} "stake" "stake"
      then (if eqb 0 0 then none else some 0)
      else get_last_processed_block 1 "stake" [])
get_last_processed_block-set_example = get_last_processed_block-set 1 "stake" "stake" 0 "run" []

-- A dry run of 100 bytes.
abbrev dry_run : DryRun
dry_run sql query_params = some (some 100)

abbrev asked_for : Option (Dict String QueryValue)
asked_for = some (("from_block", QueryValue.scalar (Scalar.number (pos 7))) ∷ [])

estimates :
    (estimate_bytes dry_run (some 50) "SELECT" asked_for ≡ Estimate.cost_error "SELECT" 100 50)
    × (estimate_bytes dry_run none "SELECT" asked_for ≡ Estimate.estimated 100)
    × (build_query_params asked_for
        ≡ QueryParameter.scalar_parameter "from_block" "INT64" (Scalar.number (pos 7)) ∷ [])
unfolding estimate_bytes build_query_params
estimates = (refl, refl, refl)
