-- ===== src/Decoder/Abi.antt =====
-- The JSON ABI that decoder/types.py wraps, with the keys that the decoders read, and the canonical
-- signatures of decoder/abi_registry.py. The hash is a parameter: the hexadecimal digest of a text.
use Prim.Native.String.{◌++◌}
use chainlink_economic_ledge.Prelude.{
  String, Option, none, some, List, [], ◌∷◌, map, Bool, false, ◌&&◌, string_eq, ◌==◌, if◌then◌else◌,
}
use chainlink_economic_ledge.Prelude.Text.{join}
use chainlink_economic_ledge.Prelude.Slices.{text_drop, text_take, starts_with}

-- An input: its name, its type, whether it is indexed, and the components of a tuple.
mutual
  pub data AbiInput : Type 0 where
    input : String → String → Bool → Components → AbiInput

  pub data Components : Type 0 where
    no_components : Components
    component : AbiInput → Components → Components

abbrev pub input_name : AbiInput → String
input_name (AbiInput.input name type_ indexed parts) = name

abbrev pub input_type : AbiInput → String
input_type (AbiInput.input name type_ indexed parts) = type_

abbrev pub is_indexed : AbiInput → Bool
is_indexed (AbiInput.input name type_ indexed parts) = indexed

-- An entry of the JSON list; a missing name or type is `none`.
pub record AbiEntry : Type 0 where
  pub entry_type : Option String
  pub name : Option String
  pub anonymous : Bool
  pub inputs : List AbiInput

pub record Abi : Type 0 where
  pub abi_version : String
  pub json_abi : List AbiEntry

unfoldable mutual
  pub canonical_type : AbiInput → String
  canonical_type (AbiInput.input name type_ indexed parts) =
      let inner = join "," (canonical_types parts) in
      if starts_with type_ "tuple" then "(" ++ (inner ++ (")" ++ text_drop 5 type_)) else type_

  pub canonical_types : Components → List String
  canonical_types Components.no_components = []
  canonical_types (Components.component c rest) = canonical_type c ∷ canonical_types rest

unfoldable pub canonical_event_signature : String → AbiEntry → String
unfolding canonical_type
canonical_event_signature name event =
    name ++ ("(" ++ (join "," (map canonical_type event.inputs) ++ ")"))

unfoldable pub canonical_method_signature : String → AbiEntry → String
unfolding canonical_type
canonical_method_signature name method =
    name ++ ("(" ++ (join "," (map canonical_type method.inputs) ++ ")"))

-- `entry.get(k) == s`
abbrev pub is_some : Option String → String → Bool
is_some none s = false
is_some (some t) s = t == s

-- The first entry of the given type and name.
unfoldable pub find_entry : String → String → List AbiEntry → Option AbiEntry
find_entry kind name [] = none
find_entry kind name (entry ∷ rest) =
    let later = find_entry kind name rest in
    if is_some entry.entry_type kind && is_some entry.name name then some entry else later

module _ (keccak : String → String) where
  -- `none` is the KeyError of a name that the ABI does not have.
  unfoldable pub event_signature : Abi → String → Option String
  unfolding canonical_event_signature find_entry
  event_signature abi event_name = elim (find_entry "event" event_name abi.json_abi) [
    | none ↦ none
    | some entry ↦ some ("0x" ++ keccak (canonical_event_signature event_name entry))
  ]

  unfoldable pub method_selector : Abi → String → Option String
  unfolding canonical_method_signature find_entry
  method_selector abi method_name = elim (find_entry "function" method_name abi.json_abi) [
    | none ↦ none
    | some entry ↦
        some ("0x" ++ text_take 8 (keccak (canonical_method_signature method_name entry)))
  ]
