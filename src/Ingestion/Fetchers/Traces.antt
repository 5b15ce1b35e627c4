-- ===== src/Ingestion/Fetchers/Traces.antt =====
-- The traces that are fetched for a list of transactions.
use chainlink_economic_ledge.Prelude.{
  ℕ, String, List, [], ◌∷◌, none, some, ◌≡◌, refl, Option-cases, Bool-cases, inl, inr, contains,
  string_eq, ◌==◌, sym, if◌then◌else◌, ap,
}
use chainlink_economic_ledge.Prelude.Dict.{Dict, lookup, insert, lookup-insert}
use chainlink_economic_ledge.Decoder.TraceTree.{RawTrace}
use chainlink_economic_ledge.Ingestion.RpcClient.{Provider}
use chainlink_economic_ledge.Ingestion.Fetchers.{
  fetch_trace, fetch_traces_into, fetch_traces_for_txs,
}

module _ (hex : List ℕ → String) (keccak : String → String) (w3 : Provider) where
  fetch_traces_into-lookup :
      (out : Dict String RawTrace) (tx_hashes : List String) {traces : Dict String RawTrace}
      → fetch_traces_into hex keccak w3 out tx_hashes ≡ some traces
      → (h : String)
      → lookup h traces
        ≡ (if contains tx_hashes h then fetch_trace hex keccak w3 h else lookup h out)
  unfolding fetch_traces_into
  fetch_traces_into-lookup out [] same h =
      ap (λ o. elim o [ none ↦ none | some d ↦ lookup h d ]) (sym same)
  fetch_traces_into-lookup out (x ∷ xs) same h = elim (Option-cases (fetch_trace hex keccak w3 x)) [
    | inl e ↦ absurd (cc (rw (fetch_traces_into, e) at same))
    | inr (t, e) ↦
        let later =
          fetch_traces_into-lookup (insert x t out) xs (rw (fetch_traces_into, e) at same) h in
        rw (later, lookup-insert x h t out)
          (elim (Bool-cases (x == h)) [
            | inl q ↦
                let here : fetch_trace hex keccak w3 h ≡ some t =
                  rw (← (string_eq.beq_iff x h).0 q) e in
                elim (Bool-cases (contains xs h)) [
                  | inl c ↦ rw (q, c) refl
                  | inr c ↦ rw (q, c, here) refl
                ]
            | inr q ↦ rw q refl
          ])
  ]

  -- The dictionary that fetch_traces_for_txs returns has, for each of the hashes, the trace that
  -- fetch_trace returns for it, and no entry for any other.
  pub fetch_traces_for_txs-lookup :
      (tx_hashes : List String) {traces : Dict String RawTrace}
      → fetch_traces_for_txs hex keccak w3 tx_hashes ≡ some traces
      → (h : String)
      → lookup h traces ≡ (if contains tx_hashes h then fetch_trace hex keccak w3 h else none)
  unfolding fetch_traces_for_txs
  fetch_traces_for_txs-lookup tx_hashes same h = fetch_traces_into-lookup [] tx_hashes same h
