-- ===== src/Analytics/FeeAttribution/Buckets.antt =====
-- What the loop over the rows leaves in the bucket.
use chainlink_economic_ledge.Prelude.{
  String, some, List, [], ◌∷◌, Bool, true, false, get_some, string_eq, pair_eq, ◌==◌, if◌then◌else◌,
  ℤ, pos, ◌+ℤ◌, ◌-ℤ◌, int_laws, ◌≡◌, refl, arith, Bool-cases, Option-cases, inl, inr,
}
use chainlink_economic_ledge.Prelude.Dict.{
  lookup, insert, lookup-insert, lookup-insert_self, IsDistinct, insert-IsDistinct,
}
use chainlink_economic_ledge.Analytics.FeeAttribution.{
  classify_service, PaRow, counterparty_of, amount_of, Bucket, add_to, fill_bucket,
}

-- What the rows of a source bring, row by row.
abbrev pub inflow_of : String → List PaRow → ℤ
inflow_of source [] = pos 0
inflow_of source (action ∷ pa_actions) =
    (if counterparty_of action == source then get_some (pos 0) (amount_of action) else pos 0)
    +ℤ inflow_of source pa_actions

-- What all rows with a counterparty bring.
abbrev pub total_inflow : List PaRow → ℤ
total_inflow [] = pos 0
total_inflow (action ∷ pa_actions) =
    (if counterparty_of action == "" then pos 0 else get_some (pos 0) (amount_of action))
    +ℤ total_inflow pa_actions

-- The amount of a source in the bucket, and of all sources.
abbrev pub value : String → Bucket → ℤ
value source bucket =
    let key : String × String = (classify_service source, source) in
    get_some (pos 0) (lookup key bucket)

abbrev pub sum_of : Bucket → ℤ
sum_of [] = pos 0
sum_of ((key, amount) ∷ rest) = amount +ℤ sum_of rest

abbrev pub HasService : String × String → Type 0
HasService (service, source) = (service ≡ classify_service source) × ¬ (source ≡ "")

abbrev pub AllKeys : Bucket → Type 0
AllKeys [] = Unit
AllKeys ((key, amount) ∷ rest) = HasService key × AllKeys rest

insert-AllKeys :
    (key : String × String) (v : ℤ) (bucket : Bucket)
    → HasService key
    → AllKeys bucket
    → AllKeys (insert key v bucket)
insert-AllKeys key v [] h all = (h, tt)
insert-AllKeys key v ((j, w) ∷ bucket) h all = elim (Bool-cases (pair_eq.beq j key)) [
  | inl same ↦ rw same all
  | inr other ↦ rw other (all.0, insert-AllKeys key v bucket h all.1)
]

sum_of-insert :
    (key : String × String) (v : ℤ) (bucket : Bucket)
    → sum_of (insert key v bucket) ≡ sum_of bucket +ℤ (v -ℤ get_some (pos 0) (lookup key bucket))
sum_of-insert key v [] = omega int_laws
sum_of-insert key v ((j, w) ∷ bucket) = elim (Bool-cases (pair_eq.beq j key)) [
  | inl same ↦ rw same (omega int_laws)
  | inr other ↦ rw (other, sum_of-insert key v bucket) (omega int_laws)
]

value-add_to :
    (source cp : String) (amount : ℤ) (bucket : Bucket)
    → value source (add_to cp amount bucket)
      ≡ (if cp == source then value source bucket +ℤ amount else value source bucket)
value-add_to source cp amount bucket = elim (Bool-cases (cp == source)) [
  | inl same ↦
      let eq : cp ≡ source = (string_eq.beq_iff cp source).0 same in
      let key : String × String = (classify_service source, source) in
      rw (same, eq, lookup-insert_self key (value source bucket +ℤ amount) bucket) refl
  | inr other ↦
      let key : String × String = (classify_service cp, cp) in
      let asked : String × String = (classify_service source, source) in
      let differs : pair_eq.beq key asked ≡ false = ground (arith, other) in
      rw (other, lookup-insert key asked (value cp bucket +ℤ amount) bucket, differs) refl
]

added :
    (b : Bool) (x a r : ℤ) → (if b then x +ℤ a else x) +ℤ r ≡ x +ℤ ((if b then a else pos 0) +ℤ r)
added true x a r = omega int_laws
added false x a r = omega int_laws

-- The loop keeps the services and the keys apart, and adds each row to its source and to the sum.
pub record Filled (bucket : Bucket) (pa_actions : List PaRow) (filled : Bucket) : Type 0 where
  pub services : AllKeys filled
  pub distinct : IsDistinct filled
  pub values :
      (source : String)
      → ¬ (source ≡ "")
      → value source filled ≡ value source bucket +ℤ inflow_of source pa_actions
  pub sum : sum_of filled ≡ sum_of bucket +ℤ total_inflow pa_actions

pub fill_bucket-Filled :
    (bucket : Bucket) (pa_actions : List PaRow) (filled : Bucket)
    → AllKeys bucket
    → IsDistinct bucket
    → fill_bucket bucket pa_actions ≡ some filled
    → Filled bucket pa_actions filled
unfolding fill_bucket
fill_bucket-Filled bucket [] filled services distinct e =
    let same : bucket ≡ filled = cc e in
    rw (← same) (record {
      services = services;
      distinct = distinct;
      values = λ source named. omega int_laws;
      sum = omega int_laws;
    })
fill_bucket-Filled bucket (action ∷ pa_actions) filled services distinct e =
    let cp = counterparty_of action in
    elim (Bool-cases (cp == "")) [
      | inl missing ↦
          let below =
            fill_bucket-Filled bucket pa_actions filled services distinct
              (rw (fill_bucket, missing) at e) in
          record {
            services = below.services;
            distinct = below.distinct;
            values = λ source named.
                let differs : (cp == source) ≡ false =
                  ground
                    (arith, named, string_eq.beq_iff cp "", string_eq.beq_iff cp source, missing) in
                rw (differs, below.values source named) (omega int_laws);
            sum = rw (missing, below.sum) (omega int_laws);
          }
      | inr present ↦ elim (Option-cases (amount_of action)) [
        | inl raises ↦ cc (rw (fill_bucket, present, raises) at e)
        | inr (amount, read) ↦
            let key : String × String = (classify_service cp, cp) in
            let v = value cp bucket +ℤ amount in
            let named_ : ¬ (cp ≡ "") =
              λ eq. absurd (ground (arith, present, (string_eq.beq_iff cp "").1 eq)) in
            let below =
              fill_bucket-Filled (add_to cp amount bucket) pa_actions filled
                (insert-AllKeys key v bucket (refl, named_) services)
                (insert-IsDistinct key v bucket distinct) (rw (fill_bucket, present, read) at e) in
            record {
              services = below.services;
              distinct = below.distinct;
              values = λ source named.
                  rw (below.values source named, value-add_to source cp amount bucket, read)
                    (added (cp == source) (value source bucket) amount
                      (inflow_of source pa_actions));
              sum = rw (below.sum, sum_of-insert key v bucket, present, read) (omega int_laws);
            }
      ]
    ]
