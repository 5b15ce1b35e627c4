-- ===== src/Decoder/Types.antt =====
-- decoder/types.py: the frozen dataclasses that the other modules exchange.
use chainlink_economic_ledge.Prelude.{ℕ, String, Bool, Option, none, some, List, ℤ}
use chainlink_economic_ledge.Prelude.Text.{parse_int, parse_int_bytes, show_ℤ}
use chainlink_economic_ledge.Prelude.Slices.{repr_bytes}
use chainlink_economic_ledge.Prelude.Dict.{Dict}

-- A decoded parameter, `Any` in the source: what the ABI decoder gives for the integer, address,
-- text and byte types, and None.
pub data Value : Type 0 where
  null : Value
  number : ℤ → Value
  text : String → Value
  bytes : List ℕ → Value

pub record Receipt : Type 0 where
  pub chain_id : ℕ
  pub block_number : ℕ
  pub block_hash : String
  pub tx_hash : String
  pub tx_index : ℕ
  pub status : ℕ
  pub gas_used : ℕ
  pub effective_gas_price : Option ℕ
  pub cumulative_gas_used : ℕ
  pub contract_address : Option String
  pub logs_count : ℕ

pub record RawLog : Type 0 where
  pub chain_id : ℕ
  pub block_number : ℕ
  pub block_hash : String
  pub tx_hash : String
  pub tx_index : ℕ
  pub log_index : ℕ
  pub address : String
  pub topics : List String
  pub log_data : String

pub record DecodedEvent : Type 0 where
  pub raw_log_id : String
  pub decoded_event_id : String
  pub chain_id : ℕ
  pub block_number : ℕ
  pub tx_hash : String
  pub log_index : ℕ
  pub contract_address : String
  pub event_name : String
  pub event_signature : String
  pub indexed_params : Dict String Value
  pub data_params : Dict String Value

pub record DecodedCall : Type 0 where
  pub raw_trace_call_id : String
  pub chain_id : ℕ
  pub block_number : ℕ
  pub tx_hash : String
  pub trace_address : List ℕ
  pub contract_address : Option String
  pub method_name : String
  pub method_selector : String
  pub params : Dict String Value
  pub success : Bool
  pub parent_success : Bool

pub record TraceTokenCall : Type 0 where
  pub raw_trace_call_id : String
  pub chain_id : ℕ
  pub block_number : ℕ
  pub tx_hash : String
  pub trace_address : List ℕ
  pub token_address : String
  pub method_name : String
  pub from_addr : String
  pub to_addr : String
  pub amount : ℤ

-- A versioned ABI binding over a block range; no `to_block` means open-ended.
pub record Phase : Type 0 where
  pub contract_address : String
  pub abi_version : String
  pub from_block : ℕ
  pub to_block : Option ℕ

pub record ContractMeta : Type 0 where
  pub contract_address : String
  pub role : String
  pub deployed_block : ℕ
  pub phases : List Phase

-- `int(v)`; `none` is a TypeError or a ValueError.
unfoldable pub to_int : Value → Option ℤ
to_int null = none
to_int (number n) = some n
to_int (text s) = parse_int s
to_int (bytes b) = parse_int_bytes b

-- `str(v)`
unfoldable pub to_text : Value → String
to_text null = "None"
to_text (number n) = show_ℤ n
to_text (text s) = s
to_text (bytes b) = repr_bytes b
