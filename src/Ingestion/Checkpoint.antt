-- ===== src/Ingestion/Checkpoint.antt =====
-- ingestion/checkpoint.py, the class `Checkpoint`: the cursor and the replay queue of each source,
-- and the entries of the JSON file behind them. A missing or empty file has no entries.
pub mod Dag
pub mod Progress
pub mod Restart
use chainlink_economic_ledge.Prelude.{
  ℕ, String, Option, none, some, List, [], ◌∷◌, ◌++◌, ◌==◌, nat_eq, string_eq, pair_eq, contains,
  get_some, filter, not, ltb, if◌then◌else◌,
}
use chainlink_economic_ledge.Prelude.Dict.{Dict, lookup, insert, values}

pub record CheckpointState : Type 0 where
  pub chain_id : ℕ
  pub source_name : String
  pub last_block : ℕ
  pub last_block_hash : Option String
  pub pending_replays : List (ℕ × ℕ)

-- `(chain_id, source_name)`
abbrev pub Key : Type 0
Key = ℕ × String

abbrev pub key_of : CheckpointState → Key
key_of s = (s.chain_id, s.source_name)

-- The state in memory, and the entries in the file.
pub record Checkpoint : Type 0 where
  pub state : Dict Key CheckpointState
  pub stored : List CheckpointState

-- `for entry in payload.get("entries", []): self._state[key] = …`
unfoldable pub load_entries :
    Dict Key CheckpointState → List CheckpointState → Dict Key CheckpointState
load_entries state [] = state
load_entries state (entry ∷ rest) = load_entries (insert (key_of entry) entry state) rest

-- `Checkpoint(store_path)`, where the file holds the entries.
unfoldable pub load : List CheckpointState → Checkpoint
unfolding load_entries
load stored = record { state = load_entries [] stored; stored = stored }

unfoldable pub save : Dict Key CheckpointState → Checkpoint
save state = record { state = state; stored = values state }

unfoldable pub last_processed_block : Checkpoint → ℕ → String → ℕ
last_processed_block c chain_id source_name = elim (lookup (chain_id, source_name) c.state) [
  | none ↦ 0
  | some s ↦ s.last_block
]

unfoldable pub last_processed_block_hash : Checkpoint → ℕ → String → Option String
last_processed_block_hash c chain_id source_name = elim (lookup (chain_id, source_name) c.state) [
  | none ↦ none
  | some s ↦ s.last_block_hash
]

unfoldable pub pending_replays : Checkpoint → ℕ → String → List (ℕ × ℕ)
pending_replays c chain_id source_name = elim (lookup (chain_id, source_name) c.state) [
  | none ↦ []
  | some s ↦ s.pending_replays
]

unfoldable pub advance : Checkpoint → ℕ → String → ℕ → String → Checkpoint
unfolding save
advance c chain_id source_name block_number block_hash =
    let key : Key = (chain_id, source_name) in
    elim (lookup key c.state) [
      | none ↦ save (
          insert key
            (record {
              chain_id = chain_id;
              source_name = source_name;
              last_block = block_number;
              last_block_hash = some block_hash;
              pending_replays = [];
            })
            c.state)
      | some s ↦
          if ltb s.last_block block_number
          then save (
              insert key (record s { last_block = block_number; last_block_hash = some block_hash })
                c.state)
          else save c.state
    ]

abbrev pub fresh_state : ℕ → String → CheckpointState
fresh_state chain_id source_name = record {
  chain_id = chain_id;
  source_name = source_name;
  last_block = 0;
  last_block_hash = none;
  pending_replays = [];
}

-- `if r not in s.pending_replays: s.pending_replays.append(r)`
abbrev pub add_replay : ℕ × ℕ → CheckpointState → CheckpointState
add_replay r s =
    if contains s.pending_replays r
    then s
    else record s { pending_replays = s.pending_replays ++ r ∷ [] }

unfoldable pub mark_replay : Checkpoint → ℕ → String → ℕ → ℕ → Checkpoint
unfolding save
mark_replay c chain_id source_name from_block to_block =
    let key : Key = (chain_id, source_name) in
    let s = get_some (fresh_state chain_id source_name) (lookup key c.state) in
    save (insert key (add_replay (from_block, to_block) s) c.state)

-- `[r for r in s.pending_replays if r != (from_block, to_block)]`
abbrev pub drop_replay : ℕ × ℕ → CheckpointState → CheckpointState
drop_replay r s = record s { pending_replays = filter (λ q. not (q == r)) s.pending_replays }

unfoldable pub clear_replay : Checkpoint → ℕ → String → ℕ → ℕ → Checkpoint
unfolding save
clear_replay c chain_id source_name from_block to_block =
    let key : Key = (chain_id, source_name) in
    elim (lookup key c.state) [
      | none ↦ c
      | some s ↦ save (insert key (drop_replay (from_block, to_block) s) c.state)
    ]
