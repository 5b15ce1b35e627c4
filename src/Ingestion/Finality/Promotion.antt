-- ===== src/Ingestion/Finality/Promotion.antt =====
-- The promotion of ingestion/reorg_handler.py takes the finalized blocks of ingestion/finality.py.
use chainlink_economic_ledge.Prelude.{
  ℕ, zero, suc, ◌-◌, min, List, [], ◌∷◌, ◌≡◌, length, filter, arith, Option, ℤ,
}
use chainlink_economic_ledge.Ingestion.Reorg.{promote_finalized_blocks}
use chainlink_economic_ledge.Ingestion.Finality.{compute_safe_to_block, is_block_finalized}

-- The numbers of `n` blocks from the first.
abbrev pub blocks : ℕ → ℕ → List ℕ
blocks first zero = []
blocks first (suc n) = first ∷ blocks (suc first) n

finalized_count :
    (w first n : ℕ)
    → length (filter (λ b. is_block_finalized b w) (blocks first n)) ≡ min n (suc w - first)
unfolding is_block_finalized
finalized_count w first zero = ground arith
finalized_count w first (suc n) = ground (arith, finalized_count w (suc first) n)

-- A promotion up to the safe block counts the blocks of its range that are finalized.
pub promote_finalized_blocks-is_block_finalized :
    (answer : Option ℤ) (depth from to : ℕ)
    → let w = compute_safe_to_block answer depth in
      (promote_finalized_blocks (from, to) w).promoted_count
      ≡ length (filter (λ b. is_block_finalized b w) (blocks from (suc to - from)))
unfolding promote_finalized_blocks
promote_finalized_blocks-is_block_finalized answer depth from to =
    let w = compute_safe_to_block answer depth in
    rw (finalized_count w from (suc to - from)) (ground arith)
