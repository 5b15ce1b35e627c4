-- ===== src/Protocols/PaymentAbstraction/ReservesResolver/Sum.antt =====
-- The inflows of a transaction add up to the transfers to the reserves.
use chainlink_economic_ledge.Prelude.{
  String, List, [], ◌∷◌, map, filter, get_some, string_eq, ◌==◌, if◌then◌else◌, ℤ, pos, ◌+ℤ◌,
  int_laws, ◌≡◌, refl, ap, ◌∙◌, Bool-cases, inl, inr, ◌&&◌,
}
use chainlink_economic_ledge.Prelude.Dict.{Dict, lookup, insert, lookup-insert}
use chainlink_economic_ledge.Decoder.Types.{TraceTokenCall}
use chainlink_economic_ledge.Protocols.PaymentAbstraction.ReservesResolver.{
  ReservesInflow, lands_at_reserves, inflow_of_call, resolve_reserves_inflows_from_traces,
  aggregate_from, aggregate_reserves_inflows_per_tx,
}

-- What the transfers of a transaction bring to the reserves, read off the calls.
abbrev pub landed : String → List TraceTokenCall → ℤ
landed tx_hash [] = pos 0
landed tx_hash (c ∷ trace_calls) =
    (if lands_at_reserves c && c.tx_hash == tx_hash then c.amount else pos 0)
    +ℤ landed tx_hash trace_calls

abbrev inflow_in : String → List ReservesInflow → ℤ
inflow_in tx_hash [] = pos 0
inflow_in tx_hash (f ∷ inflows) =
    (if f.tx_hash == tx_hash then f.amount else pos 0) +ℤ inflow_in tx_hash inflows

aggregate_from-inflow_in :
    (out : Dict String ℤ) (inflows : List ReservesInflow) (tx_hash : String)
    → get_some (pos 0) (lookup tx_hash (aggregate_from out inflows))
      ≡ get_some (pos 0) (lookup tx_hash out) +ℤ inflow_in tx_hash inflows
unfolding aggregate_from
aggregate_from-inflow_in out [] tx_hash = omega int_laws
aggregate_from-inflow_in out (f ∷ inflows) tx_hash =
    let old = get_some (pos 0) (lookup f.tx_hash out) in
    let ih = aggregate_from-inflow_in (insert f.tx_hash (old +ℤ f.amount) out) inflows tx_hash in
    ih ∙ (elim (Bool-cases (f.tx_hash == tx_hash)) [
      | inl same ↦
          let eq : f.tx_hash ≡ tx_hash = (string_eq.beq_iff f.tx_hash tx_hash).0 same in
          let now : old ≡ get_some (pos 0) (lookup tx_hash out) =
            ap (λ k. get_some (pos 0) (lookup k out)) eq in
          rw (lookup-insert f.tx_hash tx_hash (old +ℤ f.amount) out, same, now) (omega int_laws)
      | inr other ↦
          rw (lookup-insert f.tx_hash tx_hash (old +ℤ f.amount) out, other) (omega int_laws)
    ])

inflow_in-landed :
    (trace_calls : List TraceTokenCall) (tx_hash : String)
    → inflow_in tx_hash (map inflow_of_call (filter lands_at_reserves trace_calls))
      ≡ landed tx_hash trace_calls
inflow_in-landed [] tx_hash = refl
inflow_in-landed (c ∷ trace_calls) tx_hash = elim (Bool-cases (lands_at_reserves c)) [
  | inl lands ↦ rw (lands, inflow_in-landed trace_calls tx_hash) refl
  | inr passes ↦ rw (passes, inflow_in-landed trace_calls tx_hash) (omega int_laws)
]

-- For each transaction, the aggregate of the inflows that the traces resolve to is the sum of the
-- LINK transfers of the transaction that land at the reserves.
pub aggregate_reserves_inflows_per_tx-landed :
    (trace_calls : List TraceTokenCall) (tx_hash : String)
    → get_some (pos 0) (
        lookup tx_hash
          (aggregate_reserves_inflows_per_tx (resolve_reserves_inflows_from_traces trace_calls)))
      ≡ landed tx_hash trace_calls
unfolding aggregate_reserves_inflows_per_tx resolve_reserves_inflows_from_traces
aggregate_reserves_inflows_per_tx-landed trace_calls tx_hash =
    aggregate_from-inflow_in [] (resolve_reserves_inflows_from_traces trace_calls) tx_hash
    ∙ ap (λ n. pos 0 +ℤ n) (inflow_in-landed trace_calls tx_hash)
    ∙ omega int_laws
