-- ===== src/Decoder/ContractRegistry/Lookups.antt =====
-- What a registry that `load` returns answers: the one phase of a block, and the active contracts.
use chainlink_economic_ledge.Prelude.{
  ℕ, ◌≤◌, String, none, some, List, [], ◌∷◌, any, find?, true, false, ◌&&◌, not, ltb, ◌≡◌, ◌≢◌,
  refl, ap, sym, ◌∙◌, inl, inr, All, All-imp, All-filter_mem, find?-some, All-of, Bool-cases,
  Option-cases, string_eq, arith, ◌==◌,
}
use chainlink_economic_ledge.Prelude.Text.{lower, lower_idem}
use chainlink_economic_ledge.Prelude.Dict.{
  lookup, insert, lookup-insert, values, IsDistinct, insert-IsDistinct,
}
use chainlink_economic_ledge.Prelude.Dict.Values.{All-values_of_found}
use chainlink_economic_ledge.Decoder.Types.{Phase, ContractMeta}
use chainlink_economic_ledge.Decoder.ContractRegistry.{
  ContractEntry, ContractRegistry, meta_of, validate_phases, covers, load_file, load_files, load,
  get_phase, list_active,
}
use chainlink_economic_ledge.Decoder.ContractRegistry.Phases.{
  cover_count, validate_phases-cover_count,
}

-- Each contract stands under its own lower-case address, and its phases passed the validation.
record IsLoaded (registry : ContractRegistry) : Type 0 where
  distinct : IsDistinct registry
  found :
      (k : String) (m : ContractMeta)
      → lookup k registry ≡ some m
      → (m.contract_address ≡ k) × (lower k ≡ k) × (validate_phases m.phases ≡ true)

insert-IsLoaded :
    (stem : String) (c : ContractEntry) (r : ContractRegistry)
    → validate_phases (meta_of stem c).phases ≡ true
    → IsLoaded r
    → IsLoaded (insert (meta_of stem c).contract_address (meta_of stem c) r)
unfolding meta_of
insert-IsLoaded stem c r ok h = record {
  distinct = insert-IsDistinct _ _ r h.distinct;
  found = found;
}
  where
    found :
        (k : String) (m : ContractMeta)
        → lookup k (insert (meta_of stem c).contract_address (meta_of stem c) r) ≡ some m
        → (m.contract_address ≡ k) × (lower k ≡ k) × (validate_phases m.phases ≡ true)
    found k m at = elim (Bool-cases (lower c.address == k)) [
      | inl same ↦
          let own : lower c.address ≡ k = (string_eq.beq_iff (lower c.address) k).0 same in
          let it : meta_of stem c ≡ m =
            ground (arith, lookup-insert (lower c.address) k (meta_of stem c) r) in
          rw (← it, ← own) (refl, lower_idem c.address, ok)
      | inr other ↦
          h.found k m (ground (arith, lookup-insert (lower c.address) k (meta_of stem c) r))
    ]

load_file-IsLoaded :
    (stem : String) (r : ContractRegistry) (cs : List ContractEntry) (s : ContractRegistry)
    → IsLoaded r
    → load_file stem r cs ≡ some s
    → IsLoaded s
unfolding load_file
load_file-IsLoaded stem r [] s h e = let same : r ≡ s = ground arith in rw (← same) h
load_file-IsLoaded stem r (c ∷ cs) s h e =
    elim (Bool-cases (validate_phases (meta_of stem c).phases)) [
      | inr bad ↦ absurd (ground arith)
      | inl ok ↦
          load_file-IsLoaded stem (insert (meta_of stem c).contract_address (meta_of stem c) r) cs s
            (insert-IsLoaded stem c r ok h) (rw ok at e)
    ]

load_files-IsLoaded :
    (r : ContractRegistry) (files : List (String × List ContractEntry)) (s : ContractRegistry)
    → IsLoaded r
    → load_files r files ≡ some s
    → IsLoaded s
unfolding load_files
load_files-IsLoaded r [] s h e = let same : r ≡ s = ground arith in rw (← same) h
load_files-IsLoaded r ((stem, cs) ∷ files) s h e = elim (Option-cases (load_file stem r cs)) [
  | inl bad ↦ absurd (ground arith)
  | inr (mid, ok) ↦
      load_files-IsLoaded mid files s (load_file-IsLoaded stem r cs mid h ok)
        (rw (load_files, ok) at e)
]

load-IsLoaded :
    (files : List (String × List ContractEntry)) (s : ContractRegistry)
    → load files ≡ some s
    → IsLoaded s
unfolding load
load-IsLoaded files s e =
    load_files-IsLoaded [] files s (record { distinct = tt; found = λ k m at. cc }) e

filter_none : (b : ℕ) (ps : List Phase) → cover_count b ps ≡ 0 → All (λ q. covers b q ≡ false) ps
filter_none b [] h = tt
filter_none b (p ∷ ps) h = (ground arith, filter_none b ps (ground arith))

find?-only :
    (b : ℕ) (ps : List Phase) (p : Phase)
    → cover_count b ps ≤ 1
    → find? (covers b) ps ≡ some p
    → All (λ q. covers b q ≡ true → q ≡ p) ps
find?-only b [] p h e = tt
find?-only b (q ∷ ps) p h e = elim (Bool-cases (covers b q)) [
  | inl covered ↦
      ((λ _. ground arith), All-imp (λ r out c. cc) ps (filter_none b ps (ground arith)))
  | inr out ↦ ((λ c. cc), find?-only b ps p (ground arith) (ground arith))
]

get_phase_found :
    (r : ContractRegistry) (address : String) (b : ℕ) (m : ContractMeta)
    → lookup (lower address) r ≡ some m
    → get_phase r address b ≡ find? (covers b) m.phases
unfolding get_phase
get_phase_found r address b m at = rw (get_phase, at) refl

module _ (files : List (String × List ContractEntry)) (registry : ContractRegistry)
    (loaded : load files ≡ some registry) where
  -- In a registry that `load` returns, the phase that `get_phase` gives for an address and a block
  -- covers the block, and every phase of the contract that covers the block is that one.
  pub get_phase_unique :
      (address : String) (b : ℕ) (p : Phase) (m : ContractMeta)
      → get_phase registry address b ≡ some p
      → lookup (lower address) registry ≡ some m
      → (covers b p ≡ true) × All (λ q. covers b q ≡ true → q ≡ p) m.phases
  get_phase_unique address b p m e at =
      let ok = ((load-IsLoaded files registry loaded).found (lower address) m at).2 in
      let first : find? (covers b) m.phases ≡ some p =
        sym (get_phase_found registry address b m at) ∙ e in
      (
        (find?-some {0, 0} (λ _. Unit) (covers b) m.phases (All-of (λ _. Unit) (λ _. tt) m.phases)
            first).1,
        find?-only b m.phases p (validate_phases-cover_count m.phases b ok) first,
      )

  any-find? : (b : ℕ) (ps : List Phase) → any (covers b) ps ≡ true → find? (covers b) ps ≢ none
  any-find? b [] h e = cc
  any-find? b (p ∷ ps) h e = ground (arith, any-find? b ps)

  -- In a registry that `load` returns, every contract that is listed as active at a block was
  -- deployed by then, and has a phase that `get_phase` finds by its address.
  pub list_active-get_phase :
      (b : ℕ)
      → All
          (λ m. (m.deployed_block ≤ b) × (get_phase registry m.contract_address b ≢ none))
          (list_active registry b)
  unfolding list_active
  list_active-get_phase b =
      All-imp (λ m q. q.0 q.1) (list_active registry b)
        (All-filter_mem _ _ (values registry) (
          All-values_of_found
            (λ m.
              (not (ltb b m.deployed_block) && any (covers b) m.phases) ≡ true
              → (m.deployed_block ≤ b) × (get_phase registry m.contract_address b ≢ none))
            registry good.distinct at_key))
    where
      good : IsLoaded registry
      good = load-IsLoaded files registry loaded

      at_key :
          (k : String) (m : ContractMeta)
          → lookup k registry ≡ some m
          → (not (ltb b m.deployed_block) && any (covers b) m.phases) ≡ true
          → (m.deployed_block ≤ b) × (get_phase registry m.contract_address b ≢ none)
      at_key k m at active =
          let (own, low, _) = good.found k m at in
          (
            ground arith,
            rw (get_phase_found registry m.contract_address b m (cc (ap lower own, low, at)))
                (any-find? b m.phases (ground arith)),
          )
