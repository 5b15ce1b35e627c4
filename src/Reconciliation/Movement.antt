-- ===== src/Reconciliation/Movement.antt =====
-- reconciliation/movement_builder.py: the record of a token movement.
use chainlink_economic_ledge.Prelude.{ℕ, String, List, Bool, ℤ}

pub data Source : Type 0 where
  log trace : Source

pub record TokenMovement : Type 0 where
  pub movement_id : String
  pub chain_id : ℕ
  pub block_number : ℕ
  pub tx_hash : String
  pub token_address : String
  pub from_addr : String
  pub to_addr : String
  pub amount : ℤ
  pub evidence_ids : List String
  pub source_priority : Source
  pub is_canonical : Bool
