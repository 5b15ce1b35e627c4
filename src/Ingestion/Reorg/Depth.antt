-- ===== src/Ingestion/Reorg/Depth.antt =====
-- What the walk back finds on a chain, and that promotions add up.
use chainlink_economic_ledge.Prelude.{
  ℕ, zero, suc, ◌+◌, ◌≤◌, String, ◌≡◌, refl, ◌==◌, string_eq, beq_refl, arith, eqb, ◌||◌,
  if◌then◌else◌,
}
use chainlink_economic_ledge.Prelude.Text.{lower}
use chainlink_economic_ledge.Ingestion.Reorg.{
  BlockHeader, walk_back, find_reorg_depth, promote_finalized_blocks,
}

module _ (get_block : ℕ → BlockHeader)
    (linked : (n : ℕ) → (get_block (suc n)).parent_hash ≡ (get_block n).block_hash) where
  walk_back_own : (n d : ℕ) → walk_back get_block n (get_block n).block_hash d ≡ d
  unfolding walk_back
  walk_back_own zero d = refl
  walk_back_own (suc n) d = rw (beq_refl (lower (get_block (suc n)).block_hash)) refl

  -- Where each block of the node names the hash of the one below as its parent, the reported depth
  -- is zero at block 0 and where the node holds the known hash at the number, and one everywhere
  -- else: however long the reorganisation is, the walk stops at the next block.
  pub find_reorg_depth-at_most_one :
      (n : ℕ) (known_hash : String)
      → find_reorg_depth get_block n known_hash
        ≡ (if eqb n 0 || lower (get_block n).block_hash == lower known_hash then 0 else 1)
  unfolding find_reorg_depth walk_back
  find_reorg_depth-at_most_one zero known_hash = refl
  find_reorg_depth-at_most_one (suc n) known_hash =
      rw (linked n) (rw (walk_back_own n 1) (ground arith))

-- Promoting a range up to one watermark, and what is left of it up to a later one, promotes as
-- many blocks as the later watermark does at once.
pub promote_finalized_blocks-twice :
    (from to w v : ℕ)
    → w ≤ v
    → let first = promote_finalized_blocks (from, to) w in
      first.promoted_count
        + (promote_finalized_blocks (from + first.promoted_count, to) v).promoted_count
      ≡ (promote_finalized_blocks (from, to) v).promoted_count
unfolding promote_finalized_blocks
promote_finalized_blocks-twice from to w v h = ground arith
