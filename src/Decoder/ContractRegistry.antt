-- ===== src/Decoder/ContractRegistry.antt =====
-- decoder/contract_registry.py: the contracts that the YAML files list, by lower-case address. The
-- parsed files are the input, each with its stem; an error that is raised is a `none`.
pub mod Lookups
pub mod Phases
use chainlink_economic_ledge.Prelude.{
  ℕ, String, Option, none, some, List, [], ◌∷◌, map, any, find?, filter, Bool, true, false, ◌&&◌,
  not, leb, ltb, get_some, string_eq, if◌then◌else◌,
}
use chainlink_economic_ledge.Prelude.Text.{lower}
use chainlink_economic_ledge.Prelude.Sort.{sort}
use chainlink_economic_ledge.Prelude.Dict.{Dict, lookup, has, insert, keys, values}
use chainlink_economic_ledge.Decoder.Types.{Phase, ContractMeta}

pub record PhaseEntry : Type 0 where
  pub abi_version : String
  pub from_block : ℕ
  pub to_block : Option ℕ

pub record ContractEntry : Type 0 where
  pub address : String
  pub role : Option String
  pub deployed_block : Option ℕ
  pub phases : List PhaseEntry

-- The dictionary by lower-case address.
abbrev pub ContractRegistry : Type 0
ContractRegistry = Dict String ContractMeta

-- Where a phase ends before the next begins.
abbrev pub ends_before : Phase → Phase → Bool
ends_before prev curr = elim prev.to_block [
  | none ↦ false
  | some prev_end ↦ ltb prev_end curr.from_block
]

-- The loop over `zip(sorted_phases, sorted_phases[1:])`: no pair raises.
unfoldable pub adjacent_ok : List Phase → Bool
adjacent_ok [] = true
adjacent_ok (p ∷ []) = true
adjacent_ok (p ∷ q ∷ rest) = ends_before p q && adjacent_ok (q ∷ rest)

abbrev pub starts_no_later : Phase → Phase → Bool
starts_no_later p q = leb p.from_block q.from_block

-- True where no ValueError is raised.
unfoldable pub validate_phases : List Phase → Bool
unfolding adjacent_ok
validate_phases phases = adjacent_ok (sort starts_no_later phases)

unfoldable pub meta_of : String → ContractEntry → ContractMeta
meta_of stem contract =
    let address = lower contract.address in
    record {
      contract_address = address;
      role = get_some stem contract.role;
      deployed_block = get_some 0 contract.deployed_block;
      phases =
          map
            (λ p. record {
              contract_address = address;
              abi_version = p.abi_version;
              from_block = p.from_block;
              to_block = p.to_block;
            })
            contract.phases;
    }

-- `for contract in doc.get("contracts", [])`
unfoldable pub load_file : String → ContractRegistry → List ContractEntry → Option ContractRegistry
unfolding meta_of validate_phases
load_file stem by_address [] = some by_address
load_file stem by_address (contract ∷ rest) =
    let meta = meta_of stem contract in
    let loaded = load_file stem (insert meta.contract_address meta by_address) rest in
    if validate_phases meta.phases then loaded else none

-- `for yaml_file in sorted(…)`; the files come in that order.
unfoldable pub load_files :
    ContractRegistry → List (String × List ContractEntry) → Option ContractRegistry
unfolding load_file
load_files by_address [] = some by_address
load_files by_address ((stem, contracts) ∷ rest) = elim (load_file stem by_address contracts) [
  | none ↦ none
  | some loaded ↦ load_files loaded rest
]

unfoldable pub load : List (String × List ContractEntry) → Option ContractRegistry
unfolding load_files
load files = load_files [] files

abbrev pub covers : ℕ → Phase → Bool
covers block_number phase =
    leb phase.from_block block_number
    && elim phase.to_block [ none ↦ true | some to_block ↦ leb block_number to_block ]

unfoldable pub list_active : ContractRegistry → ℕ → List ContractMeta
list_active registry block_number =
    filter
      (λ meta. not (ltb block_number meta.deployed_block) && any (covers block_number) meta.phases)
      (values registry)

-- `none` is a KeyError: the address is not registered, or no phase covers the block.
unfoldable pub get_phase : ContractRegistry → String → ℕ → Option Phase
get_phase registry contract_address block_number = elim (lookup (lower contract_address) registry) [
  | none ↦ none
  | some meta ↦ find? (covers block_number) meta.phases
]

unfoldable pub is_known : ContractRegistry → String → Bool
is_known registry address = has (lower address) registry

unfoldable pub role : ContractRegistry → String → Option String
role registry address = elim (lookup (lower address) registry) [
  | none ↦ none
  | some meta ↦ some meta.role
]

unfoldable pub addresses : ContractRegistry → List String
addresses registry = keys registry
