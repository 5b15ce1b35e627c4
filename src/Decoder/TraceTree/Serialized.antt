-- ===== src/Decoder/TraceTree/Serialized.antt =====
-- decoder/trace_tree.py: the text of a trace address. An `int` that raises is a `none`.
pub mod RoundTrip
use chainlink_economic_ledge.Prelude.{
  ℕ, String, Option, none, some, List, [], ◌∷◌, map, eqb, string_eq, ◌==◌, if◌then◌else◌, ℤ,
  map_some,
}
use chainlink_economic_ledge.Prelude.Text.{show_ℕ, join, codes, parse_int_codes}

-- The field of a row: missing or None, a text, or a list.
pub data AddressField : Type 0 where
  missing : AddressField
  joined : String → AddressField
  listed : List ℤ → AddressField

-- A character before the first part.
abbrev pub onto_first : ℕ → List (List ℕ) → List (List ℕ)
onto_first c [] = (c ∷ []) ∷ []
onto_first c (p ∷ ps) = (c ∷ p) ∷ ps

-- `s.split(",")`, of the characters of a text.
unfoldable pub split_comma : List ℕ → List (List ℕ)
split_comma [] = [] ∷ []
split_comma (c ∷ cs) =
    let rest = split_comma cs in if eqb c b',' then [] ∷ rest else onto_first c rest

abbrev pub number_before : Option ℤ → Option (List ℤ) → Option (List ℤ)
number_before none later = none
number_before (some n) later = map_some (λ ns. n ∷ ns) later

-- `[int(part) for part in parts if part != ""]`
unfoldable pub parse_parts : List (List ℕ) → Option (List ℤ)
parse_parts [] = some []
parse_parts ([] ∷ parts) = parse_parts parts
parse_parts ((c ∷ cs) ∷ parts) = number_before (parse_int_codes (c ∷ cs)) (parse_parts parts)

unfoldable pub parse_trace_address : AddressField → Option (List ℤ)
unfolding split_comma parse_parts
parse_trace_address AddressField.missing = some []
parse_trace_address (AddressField.joined s) =
    if s == "" then some [] else parse_parts (split_comma (codes s))
parse_trace_address (AddressField.listed ns) = some ns

unfoldable pub serialize_trace_address : List ℕ → String
serialize_trace_address addr = join "," (map show_ℕ addr)
