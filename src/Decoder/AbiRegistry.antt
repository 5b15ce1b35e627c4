-- ===== src/Decoder/AbiRegistry.antt =====
-- decoder/abi_registry.py: the versions of the ABIs by lower-case address. The parsed files are the
-- input, each with its stem, and the ABI directory is a function from file names; an error that is
-- raised is a `none`.
pub mod Agreement
use Prim.Native.String.{◌++◌}
use chainlink_economic_ledge.Prelude.{
  ℕ, String, Option, none, some, List, [], ◌∷◌, map, Bool, true, false, leb, ltb, get_some,
  string_eq, ◌==◌, if◌then◌else◌,
}
use chainlink_economic_ledge.Prelude.Text.{lower}
use chainlink_economic_ledge.Prelude.Sort.{sort}
use chainlink_economic_ledge.Prelude.Dict.{Dict, lookup, insert, keys}
use chainlink_economic_ledge.Decoder.Types.{Phase}
use chainlink_economic_ledge.Decoder.Abi.{AbiEntry, Abi}
use chainlink_economic_ledge.Decoder.ContractRegistry.{PhaseEntry, starts_no_later}

-- The phase of a contract in the YAML, with the key that only this registry reads.
pub record PhaseDef : Type 0 where
  pub entry : PhaseEntry
  pub abi_file : Option String

pub record ContractDef : Type 0 where
  pub address : String
  pub role : Option String
  pub deployed_block : Option ℕ
  pub phases : List PhaseDef

abbrev pub AbiRegistry : Type 0
AbiRegistry = Dict String (List (Phase × Abi))

-- `phase_def.get("abi_file") or f"{role}.json"`
abbrev pub abi_file_name : String → Option String → String
abi_file_name role none = role ++ ".json"
abi_file_name role (some file) = if file == "" then role ++ ".json" else file

abbrev pub phase_of : String → PhaseEntry → Phase
phase_of address entry = record {
  contract_address = address;
  abi_version = entry.abi_version;
  from_block = entry.from_block;
  to_block = entry.to_block;
}

module _ (abis : String → Option (List AbiEntry)) where
  -- `for phase_def in contract.get("phases", [])`; `none` is the FileNotFoundError.
  unfoldable pub load_phases : (address role : String) → List PhaseDef → Option (List (Phase × Abi))
  load_phases address role [] = some []
  load_phases address role (phase_def ∷ rest) =
      let phase = phase_of address phase_def.entry in
      let later = load_phases address role rest in
      elim (abis (abi_file_name role phase_def.abi_file)) [
        | none ↦ none
        | some json_abi ↦ elim later [
          | none ↦ none
          | some phases_list ↦ some (
              (phase, record { abi_version = phase.abi_version; json_abi = json_abi })
              ∷ phases_list)
        ]
      ]

  unfoldable pub load_contracts : String → AbiRegistry → List ContractDef → Option AbiRegistry
  unfolding load_phases
  load_contracts stem phases_by_address [] = some phases_by_address
  load_contracts stem phases_by_address (contract ∷ rest) =
      let address = lower contract.address in
      elim (load_phases address (get_some stem contract.role) contract.phases) [
        | none ↦ none
        | some phases_list ↦ load_contracts stem (insert address phases_list phases_by_address) rest
      ]

  -- The files come in the order of their names.
  unfoldable pub load_all : AbiRegistry → List (String × List ContractDef) → Option AbiRegistry
  unfolding load_contracts
  load_all phases_by_address [] = some phases_by_address
  load_all phases_by_address ((stem, contracts) ∷ rest) =
      elim (load_contracts stem phases_by_address contracts) [
        | none ↦ none
        | some loaded ↦ load_all loaded rest
      ]

  unfoldable pub load_from_config : List (String × List ContractDef) → Option AbiRegistry
  unfolding load_all
  load_from_config files = load_all [] files

-- The loop over the phases of an address.
unfoldable pub first_covering : ℕ → List (Phase × Abi) → Option Abi
first_covering block_number [] = none
first_covering block_number ((phase, abi) ∷ rest) =
    let later = first_covering block_number rest in
    if ltb block_number phase.from_block then later else elim phase.to_block [
      | none ↦ some abi
      | some to_block ↦ if ltb to_block block_number then later else some abi
    ]

-- `none` is the KeyError: the address is not registered, or no phase covers the block.
unfoldable pub get : AbiRegistry → String → ℕ → Option Abi
unfolding first_covering
get registry contract_address block_number = elim (lookup (lower contract_address) registry) [
  | none ↦ none
  | some phases_list ↦ first_covering block_number phases_list
]

unfoldable pub addresses : AbiRegistry → List String
addresses registry = keys registry

unfoldable pub phases : AbiRegistry → String → List Phase
phases registry contract_address = elim (lookup (lower contract_address) registry) [
  | none ↦ []
  | some phases_list ↦ map (λ p. p.0) phases_list
]

-- An open end is the infinite number, which is no block.
abbrev pub overlaps : Phase → Phase → Bool
overlaps prev curr = elim prev.to_block [
  | none ↦ true
  | some prev_end ↦ leb curr.from_block prev_end
]

unfoldable pub adjacent_overlap : List Phase → Bool
adjacent_overlap [] = false
adjacent_overlap (p ∷ []) = false
adjacent_overlap (p ∷ q ∷ rest) =
    let later = adjacent_overlap (q ∷ rest) in if overlaps p q then true else later

-- True where no ValueError is raised.
unfoldable pub ensure_no_overlap : List Phase → Bool
unfolding adjacent_overlap
ensure_no_overlap phases_list =
    if adjacent_overlap (sort starts_no_later phases_list) then false else true
