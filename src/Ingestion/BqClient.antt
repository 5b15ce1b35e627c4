-- ===== src/Ingestion/BqClient.antt =====
-- ingestion/bq/bq_client.py: the typed parameters of a query, and the estimate of its cost. The
-- dry run of BigQuery is a parameter, `none` where it raises. The text of the cost error is left
-- out.
use chainlink_economic_ledge.Prelude.{
  ℕ, String, Option, none, some, List, [], ◌∷◌, map, ltb, if◌then◌else◌, ℤ, get_some,
}
use chainlink_economic_ledge.Prelude.Text.{show_ℤ}
use chainlink_economic_ledge.Prelude.Dict.{Dict}

-- A value in a list, and a value: `others` have a `str` and are neither numbers nor texts.
pub data Scalar : Type 0 where
  number : ℤ → Scalar
  text : String → Scalar
  others : String → Scalar

pub data QueryValue : Type 0 where
  listed : List Scalar → QueryValue
  scalar : Scalar → QueryValue

-- `ScalarQueryParameter` and `ArrayQueryParameter`, with the type they name.
pub data QueryParameter : Type 0 where
  scalar_parameter : (name kind : String) → Scalar → QueryParameter
  array_parameter : (name kind : String) → List Scalar → QueryParameter

-- `str(x)`
abbrev pub str_of : Scalar → String
str_of (Scalar.number n) = show_ℤ n
str_of (Scalar.text s) = s
str_of (Scalar.others s) = s

abbrev pub as_text : Scalar → Scalar
as_text x = Scalar.text (str_of x)

abbrev pub array_of : String → List Scalar → QueryParameter
array_of name [] = QueryParameter.array_parameter name "STRING" []
array_of name (Scalar.number n ∷ rest) =
    QueryParameter.array_parameter name "INT64" (Scalar.number n ∷ rest)
array_of name (Scalar.text s ∷ rest) =
    QueryParameter.array_parameter name "STRING" (map as_text (Scalar.text s ∷ rest))
array_of name (Scalar.others s ∷ rest) =
    QueryParameter.array_parameter name "STRING" (map as_text (Scalar.others s ∷ rest))

abbrev pub parameter_of : String → QueryValue → QueryParameter
parameter_of name (QueryValue.listed values) = array_of name values
parameter_of name (QueryValue.scalar (Scalar.number n)) =
    QueryParameter.scalar_parameter name "INT64" (Scalar.number n)
parameter_of name (QueryValue.scalar (Scalar.text s)) =
    QueryParameter.scalar_parameter name "STRING" (Scalar.text s)
parameter_of name (QueryValue.scalar (Scalar.others s)) =
    QueryParameter.scalar_parameter name "STRING" (Scalar.text s)

-- No dictionary has no parameters.
unfoldable pub build_query_params : Option (Dict String QueryValue) → List QueryParameter
build_query_params none = []
build_query_params (some query_params) = map (λ p. parameter_of p.0 p.1) query_params

pub data Estimate : Type 0 where
  estimated : ℕ → Estimate
  cost_error : (sql : String) → (estimate_bytes limit_bytes : ℕ) → Estimate
  raised : Estimate

-- The bytes that a dry run processes, where its job says so.
abbrev pub DryRun : Type 0
DryRun = String → List QueryParameter → Option (Option ℕ)

unfoldable pub estimate_bytes :
    DryRun → (max_bytes_billed : Option ℕ) → String → Option (Dict String QueryValue) → Estimate
unfolding build_query_params
estimate_bytes query max_bytes_billed sql query_params =
    elim (query sql (build_query_params query_params)) [
      | none ↦ Estimate.raised
      | some processed ↦
          let estimate = get_some 0 processed in
          elim max_bytes_billed [
            | none ↦ Estimate.estimated estimate
            | some limit ↦
                if ltb limit estimate
                then Estimate.cost_error sql estimate limit
                else Estimate.estimated estimate
          ]
    ]
