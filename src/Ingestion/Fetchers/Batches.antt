-- ===== src/Ingestion/Fetchers/Batches.antt =====
-- Batches of receipts, and the transactions of a block.
use chainlink_economic_ledge.Prelude.{
  ℕ, pos, zero, suc, ◌<◌, ◌≤◌, String, List, [], ◌∷◌, ◌++◌, none, some, length, take, drop, ◌≡◌,
  refl, sym, ap, ◌∙◌, arith, Option-cases, true, ◌⊎◌, inl, inr,
}
use chainlink_economic_ledge.Prelude.Collect.{collect, collect-append}
use chainlink_economic_ledge.Ingestion.RpcClient.{
  Provider, BlockId, get_block, get_transaction_receipt, get_receipts_batch,
}
use chainlink_economic_ledge.Ingestion.Fetchers.{
  chunks_from, fetch_chunks, fetch_receipts_for_txs, fetch_transactions_for_block,
}

take-drop {ℓ} : {A : Type ℓ} (n : ℕ) (xs : List A) → take n xs ++ drop n xs ≡ xs
take-drop zero xs = refl
take-drop (suc n) [] = refl
take-drop (suc n) (x ∷ xs) = ap (λ ys. x ∷ ys) (take-drop n xs)

length-drop {ℓ} : {A : Type ℓ} (n : ℕ) (xs : List A) → length (drop n xs) ≤ length xs
length-drop zero xs = omega arith
length-drop (suc n) [] = omega arith
length-drop (suc n) (x ∷ xs) = let h = length-drop n xs in omega arith

module _ (hex : List ℕ → String) (keccak : String → String) (w3 : Provider) where
  fetch_chunks-chunks :
      (fuel n : ℕ) (tx_hashes : List String)
      → length tx_hashes ≤ fuel
      → fetch_chunks hex keccak w3 (chunks_from fuel (suc n) tx_hashes)
        ≡ collect (get_transaction_receipt hex keccak w3) tx_hashes
  unfolding fetch_chunks chunks_from get_receipts_batch
  fetch_chunks-chunks zero n [] enough = refl
  fetch_chunks-chunks zero n (h ∷ hs) enough = absurd (omega arith)
  fetch_chunks-chunks (suc fuel) n [] enough = refl
  fetch_chunks-chunks (suc fuel) n (h ∷ hs) enough =
      let shorter = length-drop n hs in
      let later = fetch_chunks-chunks fuel n (drop n hs) (omega arith) in
      let one_by_one = get_transaction_receipt hex keccak w3 in
      rw later (
        sym (collect-append one_by_one (h ∷ take n hs) (drop n hs))
        ∙ ap (λ xs. collect one_by_one (h ∷ xs)) (take-drop n hs))

  -- With a batch size of at least 1, fetch_receipts_for_txs returns the receipts of
  -- get_transaction_receipt, one for each hash and in their order, and raises where one of these
  -- requests raises.
  pub fetch_receipts_for_txs-collect :
      (tx_hashes : List String) (batch_size : ℕ)
      → 0 < batch_size
      → fetch_receipts_for_txs hex keccak w3 tx_hashes (pos batch_size)
        ≡ collect (get_transaction_receipt hex keccak w3) tx_hashes
  unfolding fetch_receipts_for_txs
  fetch_receipts_for_txs-collect tx_hashes zero some_batch = absurd (omega arith)
  fetch_receipts_for_txs-collect tx_hashes (suc n) some_batch =
      fetch_chunks-chunks (length tx_hashes) n tx_hashes (omega arith)

  -- Whatever the node answers, fetch_transactions_for_block never returns a transaction: where it
  -- returns a list, the list is empty.
  pub fetch_transactions_for_block-nil :
      (block_number : ℕ)
      → (fetch_transactions_for_block hex keccak w3 block_number ≡ none)
        ⊎ (fetch_transactions_for_block hex keccak w3 block_number ≡ some [])
  unfolding fetch_transactions_for_block get_block
  fetch_transactions_for_block-nil block_number =
      elim (Option-cases (w3.block (BlockId.numbered block_number) true)) [
        | inl e ↦ rw e (inl refl)
        | inr (answer, e) ↦ rw e (inr refl)
      ]
