-- ===== src/Decoder/ContractRegistry/Phases.antt =====
-- A loaded registry binds each block to at most one phase of a contract.
use chainlink_economic_ledge.Prelude.{
  ℕ, ◌≤◌, ◌<◌, List, [], ◌∷◌, filter, true, ◌≡◌, refl, inl, inr, length, All, All-imp, Bool-cases,
  string_eq, arith,
}
use chainlink_economic_ledge.Prelude.Sort.{sort, insert_sorted, IsSorted, sort-IsSorted}
use chainlink_economic_ledge.Decoder.Types.{Phase}
use chainlink_economic_ledge.Decoder.ContractRegistry.{
  adjacent_ok, starts_no_later, validate_phases, covers,
}

-- How many of the phases cover the block.
abbrev pub cover_count : ℕ → List Phase → ℕ
cover_count b phases = length (filter (covers b) phases)

cover_count-insert_sorted :
    (b : ℕ) (p : Phase) (ps : List Phase)
    → cover_count b (insert_sorted starts_no_later p ps) ≡ cover_count b (p ∷ ps)
cover_count-insert_sorted b p [] = refl
cover_count-insert_sorted b p (q ∷ qs) = ground (arith, cover_count-insert_sorted b p qs)

cover_count-sort :
    (b : ℕ) (ps : List Phase) → cover_count b (sort starts_no_later ps) ≡ cover_count b ps
cover_count-sort b [] = refl
cover_count-sort b (p ∷ ps) =
    rw (cover_count-insert_sorted b p (sort starts_no_later ps))
      (ground (arith, cover_count-sort b ps))

-- Where no phase starts by the block, none covers it.
cover_count_late : (b : ℕ) (ps : List Phase) → All (λ q. b < q.from_block) ps → cover_count b ps ≡ 0
cover_count_late b [] h = refl
cover_count_late b (p ∷ ps) h = ground (arith, cover_count_late b ps h.1)

cover_count_sorted :
    (b : ℕ) (ps : List Phase)
    → IsSorted starts_no_later ps
    → adjacent_ok ps ≡ true
    → cover_count b ps ≤ 1
unfolding adjacent_ok
cover_count_sorted b [] s ok = omega arith
cover_count_sorted b (p ∷ []) s ok = ground arith
cover_count_sorted b (p ∷ q ∷ ps) s ok = elim (Bool-cases (covers b p)) [
  | inr out ↦ rw out (cover_count_sorted b (q ∷ ps) s.1 (ground arith))
  | inl covered ↦
      let before : b < q.from_block = ground arith in
      let late : All (λ r. b < r.from_block) ps = All-imp (λ r h. ground arith) ps s.1.0 in
      rw (covered, cover_count_late b (q ∷ ps) (before, late)) (omega arith)
]

-- Phases that pass the validation never overlap: at most one of them covers a block.
pub validate_phases-cover_count :
    (ps : List Phase) (b : ℕ) → validate_phases ps ≡ true → cover_count b ps ≤ 1
unfolding validate_phases
validate_phases-cover_count ps b ok = rw (cover_count-sort b ps) at (
    cover_count_sorted b (sort starts_no_later ps)
      (sort-IsSorted starts_no_later (λ p q h. ground arith) (λ p q r h k. ground arith) ps) ok)
