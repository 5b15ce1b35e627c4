-- ===== src/Ingestion/Fetchers.antt =====
-- ingestion/rpc/: block_fetcher.py, receipt_fetcher.py, transaction_fetcher.py, trace_fetcher.py and
-- balance_fetcher.py, over the client. An exception that leaves a function is a `none`.
pub mod Batches
pub mod Traces
use chainlink_economic_ledge.Prelude.{
  ℕ, ℤ, pos, negsuc, zero, suc, ◌+◌, ◌-◌, String, Option, none, some, List, [], ◌∷◌, Bool, true,
  false, length, take, drop, map_some, string_eq,
}
use chainlink_economic_ledge.Prelude.Text.{lower}
use chainlink_economic_ledge.Prelude.Collect.{collect, append_some}
use chainlink_economic_ledge.Prelude.Dict.{Dict, insert}
use chainlink_economic_ledge.Decoder.Types.{Receipt}
use chainlink_economic_ledge.Decoder.TraceTree.{RawTrace}
use chainlink_economic_ledge.Ingestion.Reorg.{BlockHeader}
use chainlink_economic_ledge.Ingestion.RpcClient.{
  Provider, Block, Transaction, get_block, get_receipts_batch, debug_trace_transaction,
  get_token_balance,
}

pub record TokenBalance : Type 0 where
  pub chain_id : ℕ
  pub block_number : ℕ
  pub token_address : String
  pub holder_address : String
  pub balance : ℕ

-- `range(first, last + 1)`: the numbers from a first one on.
abbrev pub numbers_from : (first count : ℕ) → List ℕ
numbers_from first zero = []
numbers_from first (suc count) = first ∷ numbers_from (suc first) count

abbrev pub inclusive_range : ℕ → ℕ → List ℕ
inclusive_range from_block to_block = numbers_from from_block (suc to_block - from_block)

-- `tx_hashes[i : i + batch_size] for i in range(0, len(tx_hashes), batch_size)`; the fuel is the
-- length.
unfoldable pub chunks_from {ℓ} : {A : Type ℓ} → (fuel batch_size : ℕ) → List A → List (List A)
chunks_from zero batch_size xs = []
chunks_from (suc fuel) batch_size [] = []
chunks_from (suc fuel) batch_size (x ∷ xs) =
    take batch_size (x ∷ xs) ∷ chunks_from fuel batch_size (drop batch_size (x ∷ xs))

module _ (hex : List ℕ → String) (keccak : String → String) (w3 : Provider) where
  unfoldable pub fetch_block_range : ℕ → ℕ → Bool → Option (List Block)
  fetch_block_range from_block to_block full_txs =
      collect (λ b. get_block hex keccak w3 b full_txs) (inclusive_range from_block to_block)

  unfoldable pub fetch_canonical_block_headers : ℕ → ℕ → Option (List BlockHeader)
  fetch_canonical_block_headers from_block to_block =
      collect (λ b. map_some (λ k. k.header) (get_block hex keccak w3 b false))
        (inclusive_range from_block to_block)

  -- `out.extend(client.get_receipts_batch(chunk))`
  unfoldable pub fetch_chunks : List (List String) → Option (List Receipt)
  unfolding get_receipts_batch
  fetch_chunks [] = some []
  fetch_chunks (chunk ∷ rest) =
      append_some (get_receipts_batch hex keccak w3 chunk) (fetch_chunks rest)

  -- A batch size of 0 is the ValueError of `range`, and a negative one an empty range.
  unfoldable pub fetch_receipts_for_txs : List String → ℤ → Option (List Receipt)
  unfolding chunks_from fetch_chunks
  fetch_receipts_for_txs tx_hashes (negsuc _) = some []
  fetch_receipts_for_txs tx_hashes (pos zero) = none
  fetch_receipts_for_txs tx_hashes (pos (suc n)) =
      fetch_chunks (chunks_from (length tx_hashes) (suc n) tx_hashes)

  unfoldable pub fetch_receipts_for_block : ℕ → Option (List Receipt)
  unfolding get_block fetch_receipts_for_txs
  fetch_receipts_for_block block_number = elim (get_block hex keccak w3 block_number false) [
    | none ↦ none
    | some block ↦ fetch_receipts_for_txs block.transaction_hashes (pos 50)
  ]

  -- `list(block.full_transactions or [])`
  abbrev pub transactions_of : Block → List Transaction
  transactions_of block = elim block.full_transactions [ none ↦ [] | some txs ↦ txs ]

  unfoldable pub fetch_transactions_for_block : ℕ → Option (List Transaction)
  unfolding get_block
  fetch_transactions_for_block block_number =
      map_some transactions_of (get_block hex keccak w3 block_number true)

  -- The client has no `get_transaction`, so any hash is an AttributeError.
  unfoldable pub fetch_transactions_batch : List String → Option (List Transaction)
  fetch_transactions_batch [] = some []
  fetch_transactions_batch (h ∷ tx_hashes) = none

  unfoldable pub fetch_trace : String → Option RawTrace
  unfolding debug_trace_transaction
  fetch_trace tx_hash = debug_trace_transaction hex keccak w3 tx_hash "callTracer"

  -- `out[tx_hash] = fetch_trace(client, tx_hash)`
  unfoldable pub fetch_traces_into :
      Dict String RawTrace → List String → Option (Dict String RawTrace)
  unfolding fetch_trace
  fetch_traces_into out [] = some out
  fetch_traces_into out (tx_hash ∷ tx_hashes) = elim (fetch_trace tx_hash) [
    | none ↦ none
    | some trace ↦ fetch_traces_into (insert tx_hash trace out) tx_hashes
  ]

  unfoldable pub fetch_traces_for_txs : List String → Option (Dict String RawTrace)
  unfolding fetch_traces_into
  fetch_traces_for_txs tx_hashes = fetch_traces_into [] tx_hashes

  unfoldable pub snapshot_token_balance : String → String → ℕ → Option TokenBalance
  unfolding get_token_balance
  snapshot_token_balance token_address holder_address block_number =
      map_some
        (λ balance. record {
          chain_id = w3.chain_id;
          block_number = block_number;
          token_address = lower token_address;
          holder_address = lower holder_address;
          balance = balance;
        })
        (get_token_balance hex keccak w3 token_address holder_address block_number)

  unfoldable pub snapshot_token_balances_batch :
      String → List String → ℕ → Option (List TokenBalance)
  snapshot_token_balances_batch token_address holders block_number =
      collect (λ h. snapshot_token_balance token_address h block_number) holders

  unfoldable pub snapshot_balances_over_blocks :
      String → String → List ℕ → Option (List TokenBalance)
  snapshot_balances_over_blocks token_address holder block_numbers =
      collect (λ b. snapshot_token_balance token_address holder b) block_numbers
