-- ===== src/Examples/Ingestion.antt =====
-- Checkpoints, reorganisations and finality at concrete inputs.
use chainlink_economic_ledge.Prelude.{
  eqb, ◌||◌, ℕ, zero, suc, ◌≤◌, none, [], not, ◌&&◌, ◌≡◌, refl, contains, nat_eq, string_eq,
  pair_eq, ◌==◌, if◌then◌else◌,
}
use chainlink_economic_ledge.Prelude.Text.{show_ℕ, lower}
use chainlink_economic_ledge.Ingestion.Checkpoint.{
  Checkpoint, load, advance, mark_replay, clear_replay, last_processed_block, pending_replays,
}
use chainlink_economic_ledge.Ingestion.Checkpoint.Restart.{Step, Reachable, load-stored-Reachable}
use chainlink_economic_ledge.Ingestion.Checkpoint.Progress.{
  same_source, Step-last_processed_block, clear_replay-pending_replays,
}
use chainlink_economic_ledge.Ingestion.Reorg.{BlockHeader, find_reorg_depth}
use chainlink_economic_ledge.Ingestion.Reorg.Depth.{find_reorg_depth-at_most_one}

abbrev at_ten : Checkpoint
at_ten = advance (load []) 1 "pa_logs" 10 "0xa"

abbrev replaying : Checkpoint
replaying = mark_replay at_ten 1 "pa_logs" 3 5

replaying-Reachable : Reachable [] replaying
replaying-Reachable =
    Reachable.steps at_ten replaying
      (Reachable.steps (load []) at_ten Reachable.starts
        (Step.advances (load []) 1 "pa_logs" 10 "0xa"))
      (Step.marks at_ten 1 "pa_logs" 3 5)

load-stored-Reachable_example : (load replaying.stored).state ≡ replaying.state
load-stored-Reachable_example = load-stored-Reachable [] replaying replaying-Reachable

Step-last_processed_block_example :
    last_processed_block replaying 1 "pa_logs"
    ≤ last_processed_block (advance replaying 1 "pa_logs" 4 "0xb") 1 "pa_logs"
Step-last_processed_block_example =
    Step-last_processed_block [] replaying (advance replaying 1 "pa_logs" 4 "0xb")
      replaying-Reachable (Step.advances replaying 1 "pa_logs" 4 "0xb") 1 "pa_logs"

abbrev three_to_five : ℕ × ℕ
three_to_five = (3, 5)

clear_replay-pending_replays_example :
    contains (pending_replays (clear_replay replaying 1 "pa_logs" 3 5) 1 "pa_logs") three_to_five
    ≡ (contains (pending_replays replaying 1 "pa_logs") three_to_five
        && not (same_source (1, "pa_logs") (1, "pa_logs") && (three_to_five == three_to_five)))
clear_replay-pending_replays_example =
    clear_replay-pending_replays replaying 1 "pa_logs" 3 5 1 "pa_logs" (3, 5)

-- A chain whose blocks have their numbers as hashes.
abbrev known_block : ℕ → BlockHeader
known_block n = record {
  chain_id = 1;
  block_number = n;
  block_hash = show_ℕ n;
  parent_hash = elim n [ zero ↦ "" | suc below ↦ show_ℕ below ];
  timestamp = n;
  miner = none;
  base_fee_per_gas = none;
}

find_reorg_depth-at_most_one_example :
    find_reorg_depth known_block 9 "fork"
    ≡ (if eqb 9 0 || lower (show_ℕ 9) == lower "fork" then 0 else 1)
find_reorg_depth-at_most_one_example = find_reorg_depth-at_most_one known_block (λ n. refl) 9 "fork"
