-- ===== src/Ingestion/RpcClient/CallTracer.antt =====
-- ingestion/rpc/client.py: the trees of `callTracer` as traces. A tree is the JSON of the node, with
-- `none` for an entry that is missing, and for a value or a gas that is not a text.
use chainlink_economic_ledge.Prelude.{
  ℕ, suc, String, Option, none, some, List, [], ◌∷◌, ◌++◌, ◌==◌, string_eq, if◌then◌else◌, ℤ, pos,
  get_some,
}
use chainlink_economic_ledge.Prelude.Text.{lower, upper}
use chainlink_economic_ledge.Prelude.Slices.{parse_hex_int}
use chainlink_economic_ledge.Decoder.TraceTree.{Frame, RawTrace, Calls}

pub record TraceEntries : Type 0 where
  pub call_type : Option String
  pub from_addr : Option String
  pub to_addr : Option String
  pub value : Option String
  pub gas : Option String
  pub gas_used : Option String
  pub input_data : Option String
  pub output : Option String
  pub error : Option String
  pub revert_reason : Option String

mutual
  pub data TraceDict : Type 0 where
    entries : TraceEntries → TraceDicts → TraceDict

  -- `node.get("calls") or []`
  pub data TraceDicts : Type 0 where
    no_calls : TraceDicts
    call : TraceDict → TraceDicts → TraceDicts

-- `int(v, 16) if isinstance(v, str) else 0`
abbrev pub hex_or_zero : Option String → Option ℤ
hex_or_zero none = some (pos 0)
hex_or_zero (some s) = parse_hex_int s

-- `str(node["to"]).lower() if node.get("to") else None`
abbrev pub lower_or_none : Option String → Option String
lower_or_none none = none
lower_or_none (some s) = if s == "" then none else some (lower s)

infixl 20 ◌>>=◌
abbrev pub ◌>>=◌ {ℓ κ} : {A : Type ℓ} {B : Type κ} → Option A → (A → Option B) → Option B
none >>= next = none
some a >>= next = next a

unfoldable pub frame_of :
    TraceEntries → (chain_id : ℕ) → (tx_hash : String) → (block : ℕ) → Option Frame
frame_of d chain_id tx_hash block_number = do
  value ← hex_or_zero d.value
  gas ← hex_or_zero d.gas
  gas_used ← hex_or_zero d.gas_used
  some (record {
    chain_id = chain_id;
    block_number = block_number;
    tx_hash = tx_hash;
    call_type = upper (get_some "CALL" d.call_type);
    from_addr = lower (get_some "" d.from_addr);
    to_addr = lower_or_none d.to_addr;
    value = value;
    gas = gas;
    gas_used = gas_used;
    input_data = get_some "0x" d.input_data;
    output = get_some "0x" d.output;
    error = d.error;
    revert_reason = d.revert_reason;
  })

abbrev pub trace_of : Option Frame → List ℕ → Option Calls → Option RawTrace
trace_of none address calls = none
trace_of (some f) address none = none
trace_of (some f) address (some calls) = some (RawTrace.node f address calls)

-- `rt.calls.append(…)`
abbrev pub first_call : Option RawTrace → Option Calls → Option Calls
first_call none rest = none
first_call (some c) none = none
first_call (some c) (some rest) = some (Calls.call c rest)

module _ (chain_id : ℕ) (tx_hash : String) (block_number : ℕ) where
  unfoldable mutual
    pub trace_dict_to_raw_trace : TraceDict → List ℕ → Option RawTrace
    trace_dict_to_raw_trace (TraceDict.entries d calls) trace_address =
        trace_of (frame_of d chain_id tx_hash block_number) trace_address
          (trace_dicts calls trace_address 0)

    -- `for i, child in enumerate(calls_raw)`
    pub trace_dicts : TraceDicts → List ℕ → ℕ → Option Calls
    trace_dicts TraceDicts.no_calls trace_address i = some Calls.no_calls
    trace_dicts (TraceDicts.call child rest) trace_address i =
        first_call (trace_dict_to_raw_trace child (trace_address ++ i ∷ []))
          (trace_dicts rest trace_address (suc i))
