-- ===== src/Examples/Data.antt =====
-- Test data: actions and movements of one transaction. The digest is the identity.
use chainlink_economic_ledge.Prelude.{ℕ, String, some, List, [], ◌∷◌, true, pos}
use chainlink_economic_ledge.Protocols.Staking.Action.{ActionKind, EconomicAction}
use chainlink_economic_ledge.Reconciliation.Movement.{Source, TokenMovement}

abbrev pub digest : String → String
digest s = s

abbrev pub action : ActionKind → String → ℕ → EconomicAction
action kind id amount = record {
  action_id = id;
  kind = kind;
  chain_id = 1;
  block_number = 7;
  tx_hash = "0xaa";
  log_index = 3;
  contract_address = "0xpool";
  pool_role = "community_pool";
  wallet = some "0xw";
  amount_link = pos amount;
  source_event_signature = "0xsig";
  raw_log_id = "raw";
  decoded_event_id = "decoded";
}

abbrev pub movement : String → ℕ → TokenMovement
movement id amount = record {
  movement_id = id;
  chain_id = 1;
  block_number = 7;
  tx_hash = "0xAA";
  token_address = "0xlink";
  from_addr = "0xw";
  to_addr = "0xpool";
  amount = pos amount;
  evidence_ids = id ∷ [];
  source_priority = Source.log;
  is_canonical = true;
}

-- A stake of 10 that moved as 4 and 6, and a slash of 3 that did not move.
abbrev pub stake_10 : EconomicAction
stake_10 = action ActionKind.stake "a1" 10

abbrev pub slash_3 : EconomicAction
slash_3 = action ActionKind.slashed "a2" 3

abbrev pub moves : List TokenMovement
moves = movement "m1" 4 ∷ movement "m2" 6 ∷ movement "m3" 1 ∷ []
