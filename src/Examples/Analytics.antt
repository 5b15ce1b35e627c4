-- ===== src/Examples/Analytics.antt =====
-- Analytics, reserves, proxies and addresses at concrete inputs.
use chainlink_economic_ledge.Prelude.{
  Option, ℕ, String, none, some, List, [], ◌∷◌, map, true, false, ◌≡◌, refl, pos, get_some,
  string_eq, All, ◌+ℤ◌,
}
use chainlink_economic_ledge.Prelude.Text.{lower, show_ℕ, join}
use chainlink_economic_ledge.Prelude.Slices.{text_drop, starts_with, parse_hex_int}
use chainlink_economic_ledge.Prelude.Dict.{lookup}
use chainlink_economic_ledge.Prelude.Sort.{IsSorted}
use chainlink_economic_ledge.Decoder.Types.{Value, TraceTokenCall, to_int, to_text}
use chainlink_economic_ledge.Decoder.TraceTree.Serialized.{
  AddressField, parse_trace_address, serialize_trace_address,
}
use chainlink_economic_ledge.Decoder.TraceTree.Serialized.RoundTrip.{
  parse_trace_address-serialize_trace_address,
}
use chainlink_economic_ledge.Decoder.ProxyResolver.{
  eip1967_impl_slot, eip1967_beacon_slot, resolve_implementation_via_rpc, storage_word_to_address,
}
use chainlink_economic_ledge.Decoder.ProxyResolver.Resolution.{
  IsResolved, resolve_implementation_via_rpc-IsResolved,
}
use chainlink_economic_ledge.Analytics.ApyRealized.{StakeEvent, compute_time_weighted_principal}
use chainlink_economic_ledge.Analytics.ApyRealized.Integral.{
  sum_below, staked_at, compute_time_weighted_principal-sum_below,
}
use chainlink_economic_ledge.Analytics.FeeAttribution.{
  FeeAttribution, PaRow, flows_no_less, attribute_pa_fees,
}
use chainlink_economic_ledge.Analytics.FeeAttribution.Buckets.{inflow_of, total_inflow}
use chainlink_economic_ledge.Analytics.FeeAttribution.Totals.{
  IsTotalOf, sum_inflow, attribute_pa_fees-IsTotalOf,
}
use chainlink_economic_ledge.Protocols.PaymentAbstraction.ReservesResolver.{
  resolve_reserves_inflows_from_traces, aggregate_reserves_inflows_per_tx,
}
use chainlink_economic_ledge.Protocols.PaymentAbstraction.ReservesResolver.Sum.{
  landed, aggregate_reserves_inflows_per_tx-landed,
}

abbrev stakes : List StakeEvent
stakes =
    record { principal = some (pos 10); start_unix = some 2; end_unix = some 5 }
    ∷ record { principal = some (pos 4); start_unix = some 4; end_unix = none }
    ∷ []

compute_time_weighted_principal-sum_below_example :
    compute_time_weighted_principal stakes 7 ≡ sum_below 7 (staked_at stakes)
compute_time_weighted_principal-sum_below_example =
    compute_time_weighted_principal-sum_below stakes 7

forty_two : compute_time_weighted_principal stakes 7 ≡ 42
unfolding compute_time_weighted_principal
forty_two = refl

abbrev row : String → ℕ → PaRow
row source amount =
    ("counterparty", Value.text source) ∷ ("output_amount", Value.number (pos amount)) ∷ []

abbrev rows : List PaRow
rows = row "0xA" 3 ∷ row "0xb" 9 ∷ row "0xa" 4 ∷ []

abbrev attribution : String → ℕ → FeeAttribution
attribution source amount = record {
  snapshot_date = "2026-05-01";
  service = "other";
  source_address = source;
  inflow_link = pos amount;
}

abbrev attributions : List FeeAttribution
attributions = attribution "0xb" 9 ∷ attribution "0xa" 7 ∷ []

rows_attributed : attribute_pa_fees rows "2026-05-01" ≡ some attributions
unfolding attribute_pa_fees lower to_text to_int ◌+ℤ◌
rows_attributed = refl

attribute_pa_fees-IsTotalOf_example :
    IsSorted flows_no_less attributions
    × All (IsTotalOf (λ source. inflow_of source rows) "2026-05-01") attributions
    × (sum_inflow attributions ≡ total_inflow rows)
attribute_pa_fees-IsTotalOf_example = attribute_pa_fees-IsTotalOf rows "2026-05-01" rows_attributed

abbrev landing : String → ℕ → TraceTokenCall
landing receiver amount = record {
  raw_trace_call_id = "id";
  chain_id = 1;
  block_number = 7;
  tx_hash = "0xaa";
  trace_address = [];
  token_address = "0x514910771AF9ca656af840dff83e8264ecf986ca";
  method_name = "transfer";
  from_addr = "0xw";
  to_addr = receiver;
  amount = pos amount;
}

abbrev landings : List TraceTokenCall
landings =
    landing "0x5680681ED3767b96914ce741a308155c7fb9171d" 3
    ∷ landing "0xpool" 9
    ∷ landing "0x5680681ed3767b96914ce741a308155c7fb9171d" 4
    ∷ []

aggregate_reserves_inflows_per_tx-landed_example :
    get_some (pos 0) (
      lookup "0xaa"
        (aggregate_reserves_inflows_per_tx (resolve_reserves_inflows_from_traces landings)))
    ≡ landed "0xaa" landings
aggregate_reserves_inflows_per_tx-landed_example =
    aggregate_reserves_inflows_per_tx-landed landings "0xaa"

seven_landed : landed "0xaa" landings ≡ pos 7
unfolding lower ◌+ℤ◌
seven_landed = refl

-- Only the beacon slot is set.
abbrev beacon_rpc : String → String → ℕ → Option (Option String)
beacon_rpc address slot block_number = elim (string_eq.beq slot eip1967_beacon_slot) [
  | true ↦ some (some "0x000000000000000000000000AAbbccddeeff00112233445566778899aabbccdd")
  | false ↦ some (some "0x0000000000000000000000000000000000000000000000000000000000000000")
]

resolve_implementation_via_rpc-IsResolved_example :
    IsResolved
      (beacon_rpc (lower "0xProxy") eip1967_impl_slot 7)
      (beacon_rpc (lower "0xProxy") eip1967_beacon_slot 7)
      (resolve_implementation_via_rpc beacon_rpc "0xProxy" 7)
resolve_implementation_via_rpc-IsResolved_example =
    resolve_implementation_via_rpc-IsResolved beacon_rpc "0xProxy" 7

beacon_address :
    resolve_implementation_via_rpc beacon_rpc "0xProxy" 7
    ≡ some (some "0xaabbccddeeff00112233445566778899aabbccdd")
unfolding resolve_implementation_via_rpc lower parse_hex_int storage_word_to_address starts_with
    text_drop
beacon_address = refl

abbrev path : List ℕ
path = 0 ∷ 12 ∷ 305 ∷ []

parse_trace_address-serialize_trace_address_example :
    parse_trace_address (AddressField.joined (serialize_trace_address path)) ≡ some (map pos path)
parse_trace_address-serialize_trace_address_example =
    parse_trace_address-serialize_trace_address path

path_text : serialize_trace_address path ≡ "0,12,305"
unfolding serialize_trace_address join show_ℕ
path_text = refl
