-- ===== src/Analytics/FeeAttribution/Totals.antt =====
-- The attributions are sorted, and hold the amount of each source.
use chainlink_economic_ledge.Prelude.{
  String, none, some, List, [], ◌∷◌, true, string_eq, pair_eq, ℤ, pos, ◌+ℤ◌, int_laws, ◌≡◌, refl,
  sym, ap, ◌∙◌, All, arith, Bool-cases, Option-cases, inl, inr,
}
use chainlink_economic_ledge.Prelude.Sort.{insert_sorted, sort, IsSorted, sort-IsSorted}
use chainlink_economic_ledge.Prelude.Dict.{lookup, IsDistinct}
use chainlink_economic_ledge.Analytics.FeeAttribution.{
  FeeAttribution, classify_service, PaRow, Bucket, fill_bucket, attributions_of, flows_no_less,
  attribute_pa_fees,
}
use chainlink_economic_ledge.Analytics.FeeAttribution.Buckets.{
  inflow_of, total_inflow, sum_of, AllKeys, fill_bucket-Filled,
}

lookup_rest :
    (key asked : String × String) (amount found : ℤ) (rest : Bucket)
    → lookup key rest ≡ none
    → lookup asked rest ≡ some found
    → lookup asked ((key, amount) ∷ rest) ≡ some found
lookup_rest key asked amount found rest fresh at = elim (Bool-cases (pair_eq.beq key asked)) [
  | inl same ↦
      let eq : key ≡ asked = (pair_eq.beq_iff key asked).0 same in
      let gone : lookup asked rest ≡ none = rw eq at fresh in
      let clash : none ≡ some found = sym gone ∙ at in cc clash
  | inr differs ↦ rw differs at
]

module _ (inflow : String → ℤ) (snapshot_date : String) where
  -- An attribution is of its service, and its amount is that of its source.
  abbrev pub IsTotalOf : FeeAttribution → Type 0
  IsTotalOf a =
      (a.service ≡ classify_service a.source_address)
      × ¬ (a.source_address ≡ "")
      × (a.inflow_link ≡ inflow a.source_address)

  attributions_of-IsTotalOf :
      (bucket : Bucket)
      → AllKeys bucket
      → IsDistinct bucket
      → ((source : String)
          → ¬ (source ≡ "")
          → (amount : ℤ)
          → (let key : String × String = (classify_service source, source) in
              lookup key bucket ≡ some amount)
          → amount ≡ inflow source)
      → All IsTotalOf (attributions_of snapshot_date bucket)
  attributions_of-IsTotalOf [] services distinct values = tt
  attributions_of-IsTotalOf (((service, source), amount) ∷ rest) services distinct values =
      let key : String × String = (service, source) in
      let here : pair_eq.beq key (classify_service source, source) ≡ true =
        (pair_eq.beq_iff key (classify_service source, source)).1
          (ap (λ s. (s, source)) services.0.0) in
      (
        (services.0.0, services.0.1, values source services.0.1 amount (rw here refl)),
        attributions_of-IsTotalOf rest services.1 distinct.1 (λ other named found at.
            values other named found
              (lookup_rest key (classify_service other, other) amount found rest distinct.0 at)),
      )

module _ (P : FeeAttribution → Type 0) where
  All-insert_sorted :
      (a : FeeAttribution) (out : List FeeAttribution)
      → P a
      → All P out
      → All P (insert_sorted flows_no_less a out)
  All-insert_sorted a [] h all = (h, tt)
  All-insert_sorted a (b ∷ out) h all = elim (Bool-cases (flows_no_less a b)) [
    | inl first ↦ rw first (h, all)
    | inr later ↦ rw later (all.0, All-insert_sorted a out h all.1)
  ]

  All-sort : (out : List FeeAttribution) → All P out → All P (sort flows_no_less out)
  All-sort [] all = tt
  All-sort (a ∷ out) all = All-insert_sorted a (sort flows_no_less out) all.0 (All-sort out all.1)

abbrev pub sum_inflow : List FeeAttribution → ℤ
sum_inflow [] = pos 0
sum_inflow (a ∷ out) = a.inflow_link +ℤ sum_inflow out

sum_inflow-insert_sorted :
    (a : FeeAttribution) (out : List FeeAttribution)
    → sum_inflow (insert_sorted flows_no_less a out) ≡ a.inflow_link +ℤ sum_inflow out
sum_inflow-insert_sorted a [] = refl
sum_inflow-insert_sorted a (b ∷ out) = elim (Bool-cases (flows_no_less a b)) [
  | inl first ↦ rw first refl
  | inr later ↦ rw (later, sum_inflow-insert_sorted a out) (omega int_laws)
]

sum_inflow-sort : (out : List FeeAttribution) → sum_inflow (sort flows_no_less out) ≡ sum_inflow out
sum_inflow-sort [] = refl
sum_inflow-sort (a ∷ out) =
    sum_inflow-insert_sorted a (sort flows_no_less out)
    ∙ ap (λ n. a.inflow_link +ℤ n) (sum_inflow-sort out)

sum_inflow-attributions_of :
    (snapshot_date : String) (bucket : Bucket)
    → sum_inflow (attributions_of snapshot_date bucket) ≡ sum_of bucket
sum_inflow-attributions_of snapshot_date [] = refl
sum_inflow-attributions_of snapshot_date ((key, amount) ∷ rest) =
    ap (λ n. amount +ℤ n) (sum_inflow-attributions_of snapshot_date rest)

-- The attributions come by falling inflow. Each is of the service of its source, its inflow is the
-- sum of the amounts of the rows with that source, and the inflows add up to the amounts of all rows
-- that have a counterparty.
pub attribute_pa_fees-IsTotalOf :
    (pa_actions : List PaRow) (snapshot_date : String) {out : List FeeAttribution}
    → attribute_pa_fees pa_actions snapshot_date ≡ some out
    → IsSorted flows_no_less out
      × All (IsTotalOf (λ source. inflow_of source pa_actions) snapshot_date) out
      × (sum_inflow out ≡ total_inflow pa_actions)
unfolding attribute_pa_fees
attribute_pa_fees-IsTotalOf pa_actions snapshot_date {out} e =
    elim (Option-cases (fill_bucket [] pa_actions)) [
      | inl raises ↦ cc (rw (attribute_pa_fees, raises) at e)
      | inr (bucket, filled) ↦
          let f = fill_bucket-Filled [] pa_actions bucket tt tt filled in
          let bare = attributions_of snapshot_date bucket in
          let same : sort flows_no_less bare ≡ out = cc (rw (attribute_pa_fees, filled) at e) in
          rw (← same) (
            sort-IsSorted flows_no_less (λ a b h. ground arith) (λ a b c h k. ground arith) bare,
            All-sort (IsTotalOf (λ source. inflow_of source pa_actions) snapshot_date) bare (
                attributions_of-IsTotalOf (λ source. inflow_of source pa_actions) snapshot_date
                  bucket f.services f.distinct
                  (λ source named amount found.
                    (rw found at (f.values source named)) ∙ omega int_laws)),
            sum_inflow-sort bare
                ∙ sum_inflow-attributions_of snapshot_date bucket
                ∙ f.sum
                ∙ omega int_laws,
          )
    ]
