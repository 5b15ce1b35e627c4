-- ===== src/Ingestion/RpcClient.antt =====
-- ingestion/rpc/client.py: the requests of the client and what it makes of the answers. The node is
-- a parameter, which answers a request always the same way, `none` where it raises; so are
-- `HexBytes.hex`, whose text depends on the version of the package, and the Keccak digest.
pub mod CallTracer
pub mod Conversion
use Prim.Native.String.{◌++◌ as str_append}
use Prim.Native.Char.{code}
use chainlink_economic_ledge.Prelude.{
  ℕ, zero, suc, ◌+◌, ◌*◌, ◌-◌, String, Option, none, some, List, [], ◌∷◌, ◌==◌, string_eq, nat_eq,
  map, Bool, true, false, if◌then◌else◌, length, map_some,
}
use chainlink_economic_ledge.Prelude.Text.{lower}
use chainlink_economic_ledge.Prelude.Collect.{collect}
use chainlink_economic_ledge.Prelude.Slices.{text_length, text_take}
use chainlink_economic_ledge.Decoder.Types.{RawLog, Receipt}
use chainlink_economic_ledge.Decoder.TraceTree.{RawTrace}
use chainlink_economic_ledge.Ingestion.Reorg.{BlockHeader}
use CallTracer.{TraceDict, lower_or_none, trace_dict_to_raw_trace}

pub record Transaction : Type 0 where
  pub chain_id : ℕ
  pub block_number : ℕ
  pub block_hash : String
  pub tx_hash : String
  pub tx_index : ℕ
  pub from_addr : String
  pub to_addr : Option String
  pub value : ℕ
  pub input_data : String
  pub gas : ℕ
  pub gas_price : Option ℕ
  pub max_fee_per_gas : Option ℕ
  pub max_priority_fee_per_gas : Option ℕ
  pub nonce : ℕ

pub record Block : Type 0 where
  pub header : BlockHeader
  pub transaction_hashes : List String
  pub full_transactions : Option (List Transaction)

-- A value that has a method `hex`, or the `str` of any other value.
pub data HexValue : Type 0 where
  with_hex : List ℕ → HexValue
  other : String → HexValue

pub record LogAnswer : Type 0 where
  pub block_number : ℕ
  pub block_hash : HexValue
  pub transaction_hash : HexValue
  pub transaction_index : ℕ
  pub log_index : ℕ
  pub address : String
  pub topics : List HexValue
  pub log_data : HexValue

pub record BlockAnswer : Type 0 where
  pub number : ℕ
  pub hash : HexValue
  pub parent_hash : HexValue
  pub timestamp : ℕ
  pub miner : Option String
  pub base_fee_per_gas : Option ℕ
  pub transactions : List HexValue

pub record ReceiptAnswer : Type 0 where
  pub block_number : ℕ
  pub block_hash : HexValue
  pub transaction_hash : HexValue
  pub transaction_index : ℕ
  pub status : ℕ
  pub gas_used : ℕ
  pub effective_gas_price : Option ℕ
  pub cumulative_gas_used : ℕ
  pub contract_address : Option String
  pub logs : List LogAnswer

-- A topic of a filter: a text, a list of texts, or None.
pub data TopicFilter : Type 0 where
  topic : String → TopicFilter
  one_of : List String → TopicFilter
  any_topic : TopicFilter

pub record LogFilter : Type 0 where
  pub from_block : ℕ
  pub to_block : ℕ
  pub address : List String
  pub topics : List TopicFilter

pub data BlockId : Type 0 where
  numbered : ℕ → BlockId
  hashed : String → BlockId
  finalized : BlockId

pub data AddressFilter : Type 0 where
  single : String → AddressFilter
  several : List String → AddressFilter

pub record Provider : Type 0 where
  pub chain_id : ℕ
  pub logs : LogFilter → Option (List LogAnswer)
  pub block : BlockId → Bool → Option BlockAnswer
  pub receipt : String → Option ReceiptAnswer
  pub eth_call : String → String → ℕ → Option (List ℕ)
  pub debug_trace : String → String → Option TraceDict

-- `[address] if isinstance(address, str) else address`
abbrev pub address_list : AddressFilter → List String
address_list (AddressFilter.single a) = a ∷ []
address_list (AddressFilter.several list) = list

-- `str(b.get("miner", "")) or None`
abbrev pub text_or_none : Option String → Option String
text_or_none none = none
text_or_none (some s) = if s == "" then none else some s

-- `s.replace("0x", "")`, with whether a "0" is read that is not yet written.
unfoldable pub without_0x : Bool → String → String
without_0x true String.[] = "0"
without_0x false String.[] = ""
without_0x true (String.◌∷◌ c s) =
    let after = without_0x false s in
    let again = without_0x true s in
    if code c == b'x'
    then after
    else if code c == b'0'
    then str_append "0" again
    else str_append "0" (String.◌∷◌ c after)
without_0x false (String.◌∷◌ c s) =
    let after = without_0x false s in
    let again = without_0x true s in if code c == b'0' then again else String.◌∷◌ c after

abbrev pub zeros : ℕ → String → String
zeros zero s = s
zeros (suc n) s = str_append "0" (zeros n s)

-- `s.rjust(64, "0")`
unfoldable pub rjust_64 : String → String
rjust_64 s = zeros (64 - text_length s) s

-- `int.from_bytes(bs, "big")`, after the number of the bytes before.
unfoldable pub big_endian : ℕ → List ℕ → ℕ
big_endian n [] = n
big_endian n (b ∷ bs) = big_endian (n * 256 + b) bs

module _ (hex : List ℕ → String) (keccak : String → String) (w3 : Provider) where
  -- `x.hex() if hasattr(x, "hex") else str(x)`
  abbrev pub hex_or_text : HexValue → String
  hex_or_text (HexValue.with_hex bs) = hex bs
  hex_or_text (HexValue.other s) = s

  abbrev pub raw_log_of : LogAnswer → RawLog
  raw_log_of log = record {
    chain_id = w3.chain_id;
    block_number = log.block_number;
    block_hash = hex_or_text log.block_hash;
    tx_hash = hex_or_text log.transaction_hash;
    tx_index = log.transaction_index;
    log_index = log.log_index;
    address = lower log.address;
    topics = map hex_or_text log.topics;
    log_data = hex_or_text log.log_data;
  }

  unfoldable pub get_logs : AddressFilter → List TopicFilter → ℕ → ℕ → Option (List RawLog)
  get_logs address topics from_block to_block = map_some (map raw_log_of) (
      w3.logs (record {
        from_block = from_block;
        to_block = to_block;
        address = address_list address;
        topics = topics;
      }))

  abbrev pub block_of : BlockAnswer → Block
  block_of b = record {
    header = record {
      chain_id = w3.chain_id;
      block_number = b.number;
      block_hash = hex_or_text b.hash;
      parent_hash = hex_or_text b.parent_hash;
      timestamp = b.timestamp;
      miner = text_or_none b.miner;
      base_fee_per_gas = b.base_fee_per_gas;
    };
    transaction_hashes = map hex_or_text b.transactions;
    full_transactions = none;
  }

  unfoldable pub get_block : ℕ → Bool → Option Block
  get_block block_number full_txs =
      map_some block_of (w3.block (BlockId.numbered block_number) full_txs)

  unfoldable pub get_block_by_hash : String → Option Block
  unfolding get_block
  get_block_by_hash block_hash = elim (w3.block (BlockId.hashed block_hash) false) [
    | none ↦ none
    | some b ↦ get_block b.number false
  ]

  abbrev pub receipt_of : ReceiptAnswer → Receipt
  receipt_of r = record {
    chain_id = w3.chain_id;
    block_number = r.block_number;
    block_hash = hex_or_text r.block_hash;
    tx_hash = hex_or_text r.transaction_hash;
    tx_index = r.transaction_index;
    status = r.status;
    gas_used = r.gas_used;
    effective_gas_price = r.effective_gas_price;
    cumulative_gas_used = r.cumulative_gas_used;
    contract_address = lower_or_none r.contract_address;
    logs_count = length r.logs;
  }

  unfoldable pub get_transaction_receipt : String → Option Receipt
  get_transaction_receipt tx_hash = map_some receipt_of (w3.receipt tx_hash)

  unfoldable pub get_receipts_batch : List String → Option (List Receipt)
  get_receipts_batch tx_hashes = collect get_transaction_receipt tx_hashes

  -- The call data is the selector and the address, padded to 32 bytes.
  abbrev pub balance_of_data : String → String
  balance_of_data holder_address = str_append "0x" (
      str_append (text_take 8 (keccak "balanceOf(address)"))
        (rjust_64 (without_0x false (lower holder_address))))

  unfoldable pub get_token_balance : String → String → ℕ → Option ℕ
  unfolding big_endian
  get_token_balance token_address holder_address block_number =
      map_some (big_endian 0)
        (w3.eth_call token_address (balance_of_data holder_address) block_number)

  unfoldable pub debug_trace_transaction : String → String → Option RawTrace
  unfolding trace_dict_to_raw_trace
  debug_trace_transaction tx_hash tracer = elim (w3.debug_trace tx_hash tracer) [
    | none ↦ none
    | some result ↦ trace_dict_to_raw_trace w3.chain_id tx_hash 0 result []
  ]

  unfoldable pub get_finalized_block_number : Option ℕ
  get_finalized_block_number = map_some (λ b. b.number) (w3.block BlockId.finalized false)

  -- The answer and the cache after it.
  unfoldable pub supports_debug_trace : Option Bool → Bool × Option Bool
  unfolding debug_trace_transaction
  supports_debug_trace (some known) = (known, some known)
  supports_debug_trace none =
      elim (debug_trace_transaction
        "0x0000000000000000000000000000000000000000000000000000000000000000" "callTracer") [
          | none ↦ (false, some false)
          | some trace ↦ (true, some true)
        ]
