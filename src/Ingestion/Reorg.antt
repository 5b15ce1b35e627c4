-- ===== src/Ingestion/Reorg.antt =====
-- ingestion/reorg_handler.py: a known block against the chain. The node is a parameter: the block
-- that it holds at a number. `now` is the clock.
pub mod Depth
use chainlink_economic_ledge.Prelude.{
  ℕ, zero, suc, ◌+◌, ◌-◌, min, String, Option, none, some, List, [], ◌==◌, string_eq, ltb, ℤ, pos,
  ◌-ℤ◌, if◌then◌else◌,
}
use chainlink_economic_ledge.Prelude.Text.{lower}
use chainlink_economic_ledge.Ingestion.Checkpoint.{Checkpoint, mark_replay}

pub record BlockHeader : Type 0 where
  pub chain_id : ℕ
  pub block_number : ℕ
  pub block_hash : String
  pub parent_hash : String
  pub timestamp : ℕ
  pub miner : Option String
  pub base_fee_per_gas : Option ℕ

pub record ReorgEvent : Type 0 where
  pub chain_id : ℕ
  pub block_number : ℕ
  pub old_block_hash : String
  pub new_block_hash : String
  pub detected_at : ℕ

pub record PromotionResult : Type 0 where
  pub chain_id : ℕ
  pub promoted_from_block : ℕ
  pub promoted_to_block : ℤ
  pub promoted_count : ℕ
  pub conflicts : List ReorgEvent

module _ (get_block : ℕ → BlockHeader) where
  unfoldable pub detect_canonical_conflict : ℕ → ℕ → String → Option ReorgEvent
  detect_canonical_conflict now block_number known_hash =
      let header = get_block block_number in
      if lower header.block_hash == lower known_hash
      then none
      else some (record {
        chain_id = header.chain_id;
        block_number = block_number;
        old_block_hash = lower known_hash;
        new_block_hash = lower header.block_hash;
        detected_at = now;
      })

  -- The loop, with `cur_block`, `cur_hash` and `depth` as its variables.
  unfoldable pub walk_back : ℕ → String → ℕ → ℕ
  walk_back zero cur_hash depth = depth
  walk_back (suc below) cur_hash depth =
      let header = get_block (suc below) in
      let further = walk_back below header.parent_hash (depth + 1) in
      if lower header.block_hash == lower cur_hash then depth else further

  unfoldable pub find_reorg_depth : ℕ → String → ℕ
  unfolding walk_back
  find_reorg_depth last_known_block_number last_known_hash =
      walk_back last_known_block_number last_known_hash 0

unfoldable pub promote_finalized_blocks : ℕ × ℕ → ℕ → PromotionResult
promote_finalized_blocks (from_block, to_block) watermark =
    let eligible_to = min to_block watermark in
    if ltb eligible_to from_block
    then record {
      chain_id = 1;
      promoted_from_block = from_block;
      promoted_to_block = pos from_block -ℤ pos 1;
      promoted_count = 0;
      conflicts = [];
    }
    else record {
      chain_id = 1;
      promoted_from_block = from_block;
      promoted_to_block = pos eligible_to;
      promoted_count = eligible_to - from_block + 1;
      conflicts = [];
    }

unfoldable pub mark_partition_for_replay : Checkpoint → ℕ → String → ℕ → ℕ → Checkpoint
mark_partition_for_replay checkpoint_store chain_id source_name from_block to_block =
    mark_replay checkpoint_store chain_id source_name from_block to_block
