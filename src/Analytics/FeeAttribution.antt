-- ===== src/Analytics/FeeAttribution.antt =====
-- analytics/pa_fee_attribution.py: the fees of each upstream contract. A row is a dictionary; an `int`
-- that raises is a `none`.
pub mod Buckets
pub mod Totals
use chainlink_economic_ledge.Prelude.{
  ℕ, String, Option, none, some, List, [], ◌∷◌, map, Bool, true, false, get_some, string_eq,
  pair_eq, ◌==◌, if◌then◌else◌, ℤ, pos, ◌+ℤ◌, leb_ℤ,
}
use chainlink_economic_ledge.Prelude.Text.{lower}
use chainlink_economic_ledge.Prelude.Sort.{sort}
use chainlink_economic_ledge.Prelude.Dict.{Dict, lookup, insert}
use chainlink_economic_ledge.Decoder.Types.{Value, to_int, to_text}

pub record FeeAttribution : Type 0 where
  pub snapshot_date : String
  pub service : String
  pub source_address : String
  pub inflow_link : ℤ

abbrev pub known_service_addresses : Dict String String
known_service_addresses =
    ("0x271682deb8c4e0901d1a1550ad2e64d568e69909", "vrf")
    ∷ ("0x65dcc24f8ff9e51f10dcc7ed1e4e2a61e6e14bd6", "functions")
    ∷ ("0x0000000000000000000000000000000000000001", "data_streams")
    ∷ ("0x80226fc0ee2b096224eeac085bb9a8cba1146f7d", "ccip")
    ∷ []

unfoldable pub classify_service : String → String
classify_service source_address =
    get_some "other" (lookup (lower source_address) known_service_addresses)

abbrev pub PaRow : Type 0
PaRow = Dict String Value

-- `str(action.get("counterparty", "")).lower()`
abbrev pub counterparty_of : PaRow → String
counterparty_of action = lower (to_text (get_some (Value.text "") (lookup "counterparty" action)))

-- `int(action.get("output_amount", action.get("amount_link", 0)))`
abbrev pub amount_of : PaRow → Option ℤ
amount_of action = to_int (
    get_some (get_some (Value.number (pos 0)) (lookup "amount_link" action))
      (lookup "output_amount" action))

abbrev pub Bucket : Type 0
Bucket = Dict (String × String) ℤ

-- `bucket[key] = bucket.get(key, 0) + amount`
abbrev pub add_to : String → ℤ → Bucket → Bucket
add_to cp amount bucket =
    let key : String × String = (classify_service cp, cp) in
    insert key (get_some (pos 0) (lookup key bucket) +ℤ amount) bucket

-- The loop over the rows.
unfoldable pub fill_bucket : Bucket → List PaRow → Option Bucket
unfolding classify_service
fill_bucket bucket [] = some bucket
fill_bucket bucket (action ∷ pa_actions) = elim (counterparty_of action == "") [
  | true ↦ fill_bucket bucket pa_actions
  | false ↦ elim (amount_of action) [
    | none ↦ none
    | some amount ↦ fill_bucket (add_to (counterparty_of action) amount bucket) pa_actions
  ]
]

abbrev pub attributions_of : String → Bucket → List FeeAttribution
attributions_of snapshot_date [] = []
attributions_of snapshot_date (((service, source_address), amount) ∷ rest) =
    record {
      snapshot_date = snapshot_date;
      service = service;
      source_address = source_address;
      inflow_link = amount;
    }
    ∷ attributions_of snapshot_date rest

-- By falling inflow, equal ones in their order.
abbrev pub flows_no_less : FeeAttribution → FeeAttribution → Bool
flows_no_less a b = leb_ℤ b.inflow_link a.inflow_link

unfoldable pub attribute_pa_fees : List PaRow → String → Option (List FeeAttribution)
unfolding fill_bucket
attribute_pa_fees pa_actions snapshot_date = elim (fill_bucket [] pa_actions) [
  | none ↦ none
  | some bucket ↦ some (sort flows_no_less (attributions_of snapshot_date bucket))
]
