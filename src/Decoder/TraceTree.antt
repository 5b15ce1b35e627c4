-- ===== src/Decoder/TraceTree.antt =====
-- decoder/trace_tree.py: call trees, their frames in pre-order, and the addresses of the frames. The
-- other direction, from database rows to a tree, is not modelled.
pub mod Addresses
pub mod Serialized
use chainlink_economic_ledge.Prelude.{ℕ, zero, suc, String, Option, List, [], ◌∷◌, ◌++◌, ℤ}

-- The fields of a trace but its address and its calls.
pub record Frame : Type 0 where
  pub chain_id : ℕ
  pub block_number : ℕ
  pub tx_hash : String
  pub call_type : String
  pub from_addr : String
  pub to_addr : Option String
  pub value : ℤ
  pub gas : ℤ
  pub gas_used : ℤ
  pub input_data : String
  pub output : String
  pub error : Option String
  pub revert_reason : Option String

mutual
  pub data RawTrace : Type 0 where
    node : Frame → List ℕ → Calls → RawTrace

  pub data Calls : Type 0 where
    no_calls : Calls
    call : RawTrace → Calls → Calls

abbrev pub frame : RawTrace → Frame
frame (RawTrace.node f address calls) = f

abbrev pub address_of : RawTrace → List ℕ
address_of (RawTrace.node f address calls) = address

unfoldable mutual
  pub flatten_call_tree : RawTrace → List RawTrace
  flatten_call_tree (RawTrace.node f address calls) =
      RawTrace.node f address calls ∷ flatten_calls calls

  pub flatten_calls : Calls → List RawTrace
  flatten_calls Calls.no_calls = []
  flatten_calls (Calls.call c rest) = flatten_call_tree c ++ flatten_calls rest

unfoldable mutual
  pub assign_trace_addresses : RawTrace → List ℕ → RawTrace
  assign_trace_addresses (RawTrace.node f address calls) prefix =
      RawTrace.node f prefix (assign_calls calls prefix 0)

  -- `for i, child in enumerate(node.calls)`
  pub assign_calls : Calls → List ℕ → ℕ → Calls
  assign_calls Calls.no_calls prefix i = Calls.no_calls
  assign_calls (Calls.call c rest) prefix i =
      Calls.call (assign_trace_addresses c (prefix ++ i ∷ [])) (assign_calls rest prefix (suc i))
