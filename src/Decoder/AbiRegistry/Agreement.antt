-- ===== src/Decoder/AbiRegistry/Agreement.antt =====
-- The registry of the ABIs agrees with the registry of the contracts, loaded from the same files.
use chainlink_economic_ledge.Prelude.{
  ℕ, String, Option, none, some, List, [], ◌∷◌, map, find?, ◌≡◌, refl, ap, All, map_some, get_some,
  Bool-cases, Option-cases, inl, inr, string_eq, arith, ◌==◌,
}
use chainlink_economic_ledge.Prelude.Text.{lower}
use chainlink_economic_ledge.Prelude.Dict.{lookup, insert, lookup-insert}
use chainlink_economic_ledge.Decoder.Types.{Phase, ContractMeta}
use chainlink_economic_ledge.Decoder.Abi.{AbiEntry, Abi}
use chainlink_economic_ledge.Decoder.ContractRegistry.{
  ContractRegistry, ContractEntry, covers, meta_of, load_file, load_files, load, get_phase,
  validate_phases,
}
use chainlink_economic_ledge.Decoder.AbiRegistry.{
  AbiRegistry, PhaseDef, ContractDef, phase_of, abi_file_name, load_phases, load_contracts,
  load_all, load_from_config, first_covering, get,
}

-- What the registry of the contracts reads of a contract.
abbrev pub entry_of : ContractDef → ContractEntry
entry_of contract = record {
  address = contract.address;
  role = contract.role;
  deployed_block = contract.deployed_block;
  phases = map (λ d. d.entry) contract.phases;
}

abbrev pub entries_of : List (String × List ContractDef) → List (String × List ContractEntry)
entries_of [] = []
entries_of ((stem, contracts) ∷ rest) = (stem, map entry_of contracts) ∷ entries_of rest

-- Each ABI has the version of its phase.
abbrev HasVersion : Phase × Abi → Type 0
HasVersion (phase, abi) = abi.abi_version ≡ phase.abi_version

abbrev Alike : Option (List (Phase × Abi)) → Option ContractMeta → Type 0
Alike none none = Unit
Alike none (some meta) = ⊥
Alike (some l) none = ⊥
Alike (some l) (some meta) = (map (λ p. p.0) l ≡ meta.phases) × All HasVersion l

Agrees : AbiRegistry → ContractRegistry → Type 0
Agrees abis contracts = (address : String) → Alike (lookup address abis) (lookup address contracts)

first_covering-covers :
    (block_number : ℕ) (l : List (Phase × Abi))
    → All HasVersion l
    → map_some (λ abi. abi.abi_version) (first_covering block_number l)
      ≡ map_some (λ p. p.abi_version) (find? (covers block_number) (map (λ p. p.0) l))
unfolding first_covering
first_covering-covers block_number [] versions = refl
first_covering-covers block_number ((phase, abi) ∷ rest) versions =
    ground (arith, first_covering-covers block_number rest)

module _ (abis : String → Option (List AbiEntry)) where
  load_phases-phase_of :
      (address role : String) (defs : List PhaseDef) (l : List (Phase × Abi))
      → load_phases abis address role defs ≡ some l
      → (map (λ p. p.0) l ≡ map (phase_of address) (map (λ d. d.entry) defs)) × All HasVersion l
  unfolding load_phases
  load_phases-phase_of address role [] l e = ground arith
  load_phases-phase_of address role (d ∷ rest) l e =
      elim (Option-cases (abis (abi_file_name role d.abi_file))) [
        | inl missing ↦ cc (rw (load_phases, missing) at e)
        | inr (json_abi, found) ↦ elim (Option-cases (load_phases abis address role rest)) [
          | inl missing ↦ cc (rw (load_phases, found, missing) at e)
          | inr (later, loaded) ↦
              let same : (
                phase_of address d.entry,
                record { abi_version = d.entry.abi_version; json_abi = json_abi },
              )
                    ∷ later
                  ≡ l =
                cc (rw (load_phases, found, loaded) at e) in
              let below = load_phases-phase_of address role rest later loaded in
              rw (← same) (ap (λ ps. phase_of address d.entry ∷ ps) below.0, (refl, below.1))
        ]
      ]

  -- The same contract enters both dictionaries under the same address.
  insert-Agrees :
      (a : AbiRegistry) (c : ContractRegistry) (address : String) (l : List (Phase × Abi))
      (meta : ContractMeta)
      → Agrees a c
      → Alike (some l) (some meta)
      → Agrees (insert address l a) (insert address meta c)
  unfolding Agrees
  insert-Agrees a c address l meta agrees alike k =
      rw (lookup-insert address k l a, lookup-insert address k meta c)
        (elim (Bool-cases (address == k)) [
          | inl same ↦ rw same alike
          | inr other ↦ rw other (agrees k)
        ])

  load_contracts-load_file :
      (stem : String) (defs : List ContractDef) (a : AbiRegistry) (c : ContractRegistry)
      {a' : AbiRegistry} {c' : ContractRegistry}
      → Agrees a c
      → load_contracts abis stem a defs ≡ some a'
      → load_file stem c (map entry_of defs) ≡ some c'
      → Agrees a' c'
  unfolding load_contracts load_file meta_of
  load_contracts-load_file stem [] a c {a'} {c'} agrees ea ec =
      let sa : a ≡ a' = cc ea in let sc : c ≡ c' = cc ec in rw (← sa, ← sc) agrees
  load_contracts-load_file stem (d ∷ rest) a c agrees ea ec =
      let address = lower d.address in
      let meta = meta_of stem (entry_of d) in
      elim (Option-cases (load_phases abis address (get_some stem d.role) d.phases)) [
        | inl missing ↦ cc (rw (load_contracts, missing) at ea)
        | inr (l, loaded) ↦ elim (Bool-cases (validate_phases meta.phases)) [
          | inr invalid ↦ cc (rw (load_file, invalid) at ec)
          | inl valid ↦
              load_contracts-load_file stem rest (insert address l a) (insert address meta c)
                (insert-Agrees a c address l meta agrees
                  (load_phases-phase_of address (get_some stem d.role) d.phases l loaded))
                (rw (load_contracts, loaded) at ea) (rw (load_file, valid) at ec)
        ]
      ]

  load_all-load_files :
      (files : List (String × List ContractDef)) (a : AbiRegistry) (c : ContractRegistry)
      {a' : AbiRegistry} {c' : ContractRegistry}
      → Agrees a c
      → load_all abis a files ≡ some a'
      → load_files c (entries_of files) ≡ some c'
      → Agrees a' c'
  unfolding load_all load_files
  load_all-load_files [] a c {a'} {c'} agrees ea ec =
      let sa : a ≡ a' = cc ea in let sc : c ≡ c' = cc ec in rw (← sa, ← sc) agrees
  load_all-load_files ((stem, contracts) ∷ rest) a c agrees ea ec =
      elim (Option-cases (load_contracts abis stem a contracts)) [
        | inl missing ↦ cc (rw (load_all, missing) at ea)
        | inr (a', loaded_a) ↦ elim (Option-cases (load_file stem c (map entry_of contracts))) [
          | inl missing ↦ cc (rw (load_files, missing) at ec)
          | inr (c', loaded_c) ↦
              load_all-load_files rest a' c'
                (load_contracts-load_file stem contracts a c agrees loaded_a loaded_c)
                (rw (load_all, loaded_a) at ea) (rw (load_files, loaded_c) at ec)
        ]
      ]

  -- Both registries load from the same files: for each address and block, the ABI that the one
  -- returns has the version of the phase that the other returns, and they raise for the same
  -- addresses and blocks.
  pub get-get_phase :
      (files : List (String × List ContractDef)) (a : AbiRegistry) (c : ContractRegistry)
      → load_from_config abis files ≡ some a
      → load (entries_of files) ≡ some c
      → (address : String) (block_number : ℕ)
      → map_some (λ abi. abi.abi_version) (get a address block_number)
        ≡ map_some (λ p. p.abi_version) (get_phase c address block_number)
  unfolding load_from_config load get get_phase Agrees
  get-get_phase files a c ea ec address block_number =
      elim (Option-cases (lookup (lower address) a)) [
        | inl no_a ↦ elim (Option-cases (lookup (lower address) c)) [
          | inl no_c ↦ rw (get, get_phase, no_a, no_c) refl
          | inr (meta, with_c) ↦ absurd (rw (no_a, with_c) at alike)
        ]
        | inr (l, with_a) ↦ elim (Option-cases (lookup (lower address) c)) [
          | inl no_c ↦ absurd (rw (with_a, no_c) at alike)
          | inr (meta, with_c) ↦
              let same : Alike (some l) (some meta) = rw (with_a, with_c) at alike in
              rw (get, get_phase, with_a, with_c, ← same.0)
                (first_covering-covers block_number l same.1)
        ]
      ]
    where
      alike : Alike (lookup (lower address) a) (lookup (lower address) c)
      alike = load_all-load_files files [] [] (λ k. tt) ea ec (lower address)
