-- ===== src/Reconciliation/MovementBuilder/Logs.antt =====
-- The movements of the Transfer logs.
use chainlink_economic_ledge.Prelude.{
  ℕ, String, none, some, List, [], ◌∷◌, map, Bool, ◌≡◌, refl, inl, inr, ◌==◌, string_eq, filter,
  Bool-cases, Option-cases, arith, pos,
}
use chainlink_economic_ledge.Prelude.Text.{lower}
use chainlink_economic_ledge.Decoder.Types.{Value, DecodedEvent, to_int}
use chainlink_economic_ledge.Reconciliation.Movement.{Source, TokenMovement}
use chainlink_economic_ledge.Reconciliation.MovementBuilder.{
  erc20_transfer_topic0, get_value, movement_of_log, build_movements_from_transfer_logs,
}

abbrev pub is_transfer : DecodedEvent → Bool
is_transfer ev = lower ev.event_signature == erc20_transfer_topic0

-- The parts of a movement that come from the log alone.
pub record Trail : Type 0 where
  pub evidence_ids : List String
  pub tx_hash : String
  pub token_address : String
  pub block_number : ℕ
  pub source_priority : Source

abbrev pub trail : TokenMovement → Trail
trail m = record {
  evidence_ids = m.evidence_ids;
  tx_hash = m.tx_hash;
  token_address = m.token_address;
  block_number = m.block_number;
  source_priority = m.source_priority;
}

abbrev pub trail_of : DecodedEvent → Trail
trail_of ev = record {
  evidence_ids = ev.raw_log_id ∷ [];
  tx_hash = lower ev.tx_hash;
  token_address = lower ev.contract_address;
  block_number = ev.block_number;
  source_priority = Source.log;
}

-- Where no amount raises, there is one movement for each Transfer event and in their order, with
-- the event's log as its only evidence, its transaction and token in lower case, and its block.
pub build_movements_from_transfer_logs-trail :
    (sha256 : String → String) (events : List DecodedEvent) (ms : List TokenMovement)
    → build_movements_from_transfer_logs sha256 events ≡ some ms
    → map trail ms ≡ map trail_of (filter is_transfer events)
unfolding build_movements_from_transfer_logs movement_of_log
build_movements_from_transfer_logs-trail sha256 [] ms e =
    let none_left : [] ≡ ms = ground arith in rw (← none_left) refl
build_movements_from_transfer_logs-trail sha256 (ev ∷ events) ms e =
    elim (Bool-cases (is_transfer ev)) [
      | inr other ↦ rw other (
          build_movements_from_transfer_logs-trail sha256 events ms
            (rw (build_movements_from_transfer_logs, other) at e))
      | inl transfer ↦
          let amount_raw = get_value ev.data_params "value" (
            get_value ev.data_params "_value"
              (get_value ev.data_params "amount" (Value.number (pos 0)))) in
          elim (Option-cases (to_int amount_raw)) [
            | inl raised ↦
                none_built (rw (build_movements_from_transfer_logs, transfer, raised) at e)
            | inr (n, amount) ↦
                elim (Option-cases (build_movements_from_transfer_logs sha256 events)) [
                  | inl raised ↦
                      none_built
                        (rw (build_movements_from_transfer_logs, transfer, amount, raised) at e)
                  | inr (rest, built) ↦ rw transfer (
                      cons_built _ rest refl
                        (build_movements_from_transfer_logs-trail sha256 events rest built)
                        (rw (build_movements_from_transfer_logs, transfer, amount, built) at e))
                ]
          ]
    ]
  where
    none_built : none ≡ some ms → map trail ms ≡ map trail_of (filter is_transfer (ev ∷ events))
    none_built h = absurd (ground arith)

    cons_built :
        (m : TokenMovement) (rest : List TokenMovement)
        → trail m ≡ trail_of ev
        → map trail rest ≡ map trail_of (filter is_transfer events)
        → some (m ∷ rest) ≡ some ms
        → map trail ms ≡ trail_of ev ∷ map trail_of (filter is_transfer events)
    cons_built m rest one more h =
        let same : m ∷ rest ≡ ms = ground arith in rw (← same) (cc (one, more))
