-- ===== src/Reconciliation/MovementBuilder.antt =====
-- reconciliation/movement_builder.py: movements from Transfer logs and from traced calls, and
-- their union. `sha256` is the hex digest of a text; components of a trace address are naturals.
pub mod Logs
pub mod Occurrence
use Prim.Native.String.{◌++◌}
use chainlink_economic_ledge.Prelude.{
  ℕ, ◌+◌, ◌*◌, ◌%◌, String, Option, none, some, List, [], ◌∷◌, Bool, true, false, not, ◌&&◌, ℤ, pos,
  filter, length, contains, ◌==◌, string_eq, int_eq, pair_eq, ltb, eqb, if◌then◌else◌,
}
use chainlink_economic_ledge.Prelude as P
use chainlink_economic_ledge.Prelude.Text.{lower, show_ℕ, show_ℤ}
use chainlink_economic_ledge.Prelude.Dict.{Dict, lookup}
use chainlink_economic_ledge.Decoder.Types.{Value, DecodedEvent, TraceTokenCall, to_int, to_text}
use chainlink_economic_ledge.Reconciliation.Movement.{Source, TokenMovement}

abbrev pub erc20_transfer_topic0 : String
erc20_transfer_topic0 = "0xddf252ad1be2c89b69c2b068fc378daa952ba7f163c4a11628f55a4df523b3ef"

-- The text that is hashed.
unfoldable pub movement_key : ℕ → String → String → String → ℤ → ℕ → String
movement_key chain_id tx_hash from_addr to_addr amount occurrence_index =
    "movement|"
    ++ show_ℕ chain_id
    ++ "|"
    ++ lower tx_hash
    ++ "|"
    ++ lower from_addr
    ++ "|"
    ++ lower to_addr
    ++ "|"
    ++ show_ℤ amount
    ++ "|"
    ++ show_ℕ occurrence_index

-- `n = (n << 16) | (component & 0xFFFF)`, over the components
unfoldable pub index_from : ℕ → List ℕ → ℕ
index_from n [] = n
index_from n (component ∷ rest) = index_from (n * 65536 + component % 65536) rest

unfoldable pub trace_address_to_index : List ℕ → ℕ
unfolding index_from
trace_address_to_index trace_address = index_from 0 trace_address

-- `d.get(k)` with a default
abbrev pub get_value : Dict String Value → String → Value → Value
get_value d k default = P.get_some default (lookup k d)

module _ (sha256 : String → String) where
  unfoldable pub compute_movement_id : ℕ → String → String → String → ℤ → ℕ → String
  compute_movement_id chain_id tx_hash from_addr to_addr amount occurrence_index =
      sha256 (movement_key chain_id tx_hash from_addr to_addr amount occurrence_index)

  unfoldable pub movement_of_log : DecodedEvent → String → String → ℤ → TokenMovement
  movement_of_log ev from_addr to_addr amount = record {
    movement_id = compute_movement_id ev.chain_id ev.tx_hash from_addr to_addr amount ev.log_index;
    chain_id = ev.chain_id;
    block_number = ev.block_number;
    tx_hash = lower ev.tx_hash;
    token_address = lower ev.contract_address;
    from_addr = from_addr;
    to_addr = to_addr;
    amount = amount;
    evidence_ids = ev.raw_log_id ∷ [];
    source_priority = Source.log;
    is_canonical = true;
  }

  -- `none` where `int` of the amount raises. Events with another signature are skipped.
  unfoldable pub build_movements_from_transfer_logs :
      List DecodedEvent → Option (List TokenMovement)
  unfolding movement_of_log
  build_movements_from_transfer_logs [] = some []
  build_movements_from_transfer_logs (ev ∷ rest) =
      let out = build_movements_from_transfer_logs rest in
      let params = ev.indexed_params in
      let from_addr =
        lower (to_text (get_value params "from" (get_value params "_from" (Value.text "")))) in
      let to_addr =
        lower (to_text (get_value params "to" (get_value params "_to" (Value.text "")))) in
      let amount_raw = get_value ev.data_params "value" (
        get_value ev.data_params "_value"
          (get_value ev.data_params "amount" (Value.number (pos 0)))) in
      let built : Option (List TokenMovement) = elim (to_int amount_raw) [
        | none ↦ none
        | some amount ↦ P.map_some (λ ms. movement_of_log ev from_addr to_addr amount ∷ ms) out
      ] in
      if lower ev.event_signature == erc20_transfer_topic0 then built else out

  unfoldable pub movement_of_call : TraceTokenCall → TokenMovement
  movement_of_call call =
      let from_addr = if call.from_addr == "" then "" else lower call.from_addr in
      let to_addr = lower call.to_addr in
      let occ = trace_address_to_index call.trace_address in
      record {
        movement_id =
            compute_movement_id call.chain_id call.tx_hash from_addr to_addr call.amount occ;
        chain_id = call.chain_id;
        block_number = call.block_number;
        tx_hash = lower call.tx_hash;
        token_address = lower call.token_address;
        from_addr = from_addr;
        to_addr = to_addr;
        amount = call.amount;
        evidence_ids = call.raw_trace_call_id ∷ [];
        source_priority = Source.trace;
        is_canonical = true;
      }

  unfoldable pub build_movements_from_trace_calls : List TraceTokenCall → List TokenMovement
  unfolding movement_of_call
  build_movements_from_trace_calls [] = []
  build_movements_from_trace_calls (call ∷ rest) =
      movement_of_call call ∷ build_movements_from_trace_calls rest
