-- ===== src/Examples/Movements.antt =====
-- Movement ids and the union of movements at concrete inputs.
use mathlib.Core.List.{Memᴰ}
use chainlink_economic_ledge.Prelude.{ℕ, some, pos, List, [], ◌∷◌, ◌≡◌, refl, All, string_eq}
use chainlink_economic_ledge.Reconciliation.Movement.{Source, TokenMovement}
use chainlink_economic_ledge.Prelude.Text.{lower}
use chainlink_economic_ledge.Decoder.Types.{Value, DecodedEvent, to_int, to_text}
use chainlink_economic_ledge.Reconciliation.MovementBuilder.{
  erc20_transfer_topic0, movement_of_log, build_movements_from_transfer_logs,
}
use chainlink_economic_ledge.Reconciliation.Unify.{unify_movements}
use chainlink_economic_ledge.Reconciliation.Unify.Sources.{IsObserved}
use chainlink_economic_ledge.Reconciliation.Unify.Origin.{unify_movements-IsObserved}
use chainlink_economic_ledge.Reconciliation.Unify.Buckets.{IsResolved}
use chainlink_economic_ledge.Reconciliation.Unify.Union.{HaveStableIds, unify_movements-IsResolved}
use chainlink_economic_ledge.Examples.Data.{digest, movement}

abbrev log_movement : TokenMovement
log_movement = movement "m1" 4

-- The same transfer, as the trace shows it.
abbrev traced_movement : TokenMovement
traced_movement = record (movement "t1" 4) { source_priority = Source.trace }

ids_stable : HaveStableIds (log_movement ∷ traced_movement ∷ [])
ids_stable = (((λ e. refl), ((λ e. refl), tt)), (((λ e. refl), ((λ e. refl), tt)), tt))

unify_movements-IsResolved_example :
    IsResolved traced_movement "t1" (unify_movements (log_movement ∷ []) (traced_movement ∷ []))
unify_movements-IsResolved_example =
    unify_movements-IsResolved (log_movement ∷ []) (traced_movement ∷ []) ids_stable (refl, tt)
      traced_movement "t1" (Memᴰ.tail (Memᴰ.head refl)) refl (λ e. cc)

unify_movements-IsObserved_example :
    All
      (IsObserved (log_movement ∷ traced_movement ∷ []))
      (unify_movements (log_movement ∷ []) (traced_movement ∷ []))
unify_movements-IsObserved_example =
    unify_movements-IsObserved (log_movement ∷ []) (traced_movement ∷ [])

abbrev child : List ℕ
child = 1 ∷ 7 ∷ []

abbrev transfer : DecodedEvent
transfer = record {
  raw_log_id = "raw";
  decoded_event_id = "decoded";
  chain_id = 1;
  block_number = 7;
  tx_hash = "0xAA";
  log_index = 3;
  contract_address = "0xLink";
  event_name = "Transfer";
  event_signature = erc20_transfer_topic0;
  indexed_params = ("from", Value.text "0xW") ∷ ("to", Value.text "0xPool") ∷ [];
  data_params = ("value", Value.number (pos 4)) ∷ [];
}

-- A transfer, and the same event under another signature.
abbrev events : List DecodedEvent
events = transfer ∷ record transfer { event_signature = "0xsig" } ∷ []

abbrev built : List TokenMovement
built = movement_of_log digest transfer "0xw" "0xpool" (pos 4) ∷ []

built-events : build_movements_from_transfer_logs digest events ≡ some built
unfolding build_movements_from_transfer_logs lower to_int to_text
built-events = refl
