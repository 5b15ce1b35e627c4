-- ===== src/Ingestion/LogFetcher.antt =====
-- ingestion/rpc/log_fetcher.py: windows of logs, and the fetch that halves its window. The node is a
-- parameter: what `get_logs` answers to its n-th request for a range, `none` where it raises. The
-- address and the topics of a fetch stay the same in all its requests and are part of the node.
pub mod Windows
pub mod Adaptive
use chainlink_economic_ledge.Prelude.{
  ℕ, zero, suc, ◌+◌, ◌-◌, ◌/◌, Option, none, some, List, [], ◌∷◌, ◌++◌, leb, ltb, if◌then◌else◌, ℤ,
  pos, negsuc, sub_ℕ, leb_ℤ,
}
use chainlink_economic_ledge.Decoder.Types.{RawLog}

-- The node: number of the request, first block, last block.
abbrev pub Node : Type 0
Node = ℕ → ℕ → ℤ → Option (List RawLog)

abbrev pub min_ℤ : ℤ → ℤ → ℤ
min_ℤ a b = if leb_ℤ a b then a else b

-- `end = min(cur + window - 1, to_block)`, which is -1 for an empty window at block 0.
abbrev pub window_end : ℕ → ℕ → ℕ → ℤ
window_end cur window to = min_ℤ (sub_ℕ (cur + window) 1) (pos to)

-- `cur = end + 1`
abbrev pub block_after : ℤ → ℕ
block_after (pos n) = suc n
block_after (negsuc n) = 0

-- What the generator yields, up to its end, an exception, or the end of the fuel.
pub data Yields : Type 0 where
  finished : Yields
  raised : Yields
  out_of_fuel : Yields
  yielded : List RawLog → Yields → Yields

pub data Fetch : Type 0 where
  returned : List RawLog → Fetch
  raised : Fetch
  out_of_fuel : Fetch

module _ (get_logs : Node) (to_block : ℕ) where
  unfoldable pub windows_from : (fuel request cur window_size : ℕ) → Yields
  windows_from zero request cur window_size = Yields.out_of_fuel
  windows_from (suc fuel) request cur window_size =
      let end = window_end cur window_size to_block in
      let rest = windows_from fuel (suc request) (block_after end) window_size in
      if leb cur to_block
      then elim (get_logs request cur end) [
        | some logs ↦ Yields.yielded logs rest
        | none ↦ Yields.raised
      ]
      else Yields.finished

  -- Fuel for one window at each block and one test more.
  unfoldable pub fetch_logs_windowed : (from_block window_size : ℕ) → Yields
  fetch_logs_windowed from_block window_size =
      windows_from (suc (suc to_block - from_block)) 0 from_block window_size

module _ (get_logs : Node) (to_block min_window : ℕ) where
  unfoldable pub adaptive_from : (fuel request cur window : ℕ) → List RawLog → Fetch
  adaptive_from zero request cur window out = Fetch.out_of_fuel
  adaptive_from (suc fuel) request cur window out =
      let end = window_end cur window to_block in
      let halved = window / 2 in
      let retry = adaptive_from fuel (suc request) cur halved out in
      if leb cur to_block
      then elim (get_logs request cur end) [
        | some logs ↦ adaptive_from fuel (suc request) (block_after end) window (out ++ logs)
        | none ↦ if ltb halved min_window then Fetch.raised else retry
      ]
      else Fetch.returned out

  -- Fuel for one window at each block, one failure for each block of the window, and one test more.
  unfoldable pub fetch_logs_with_adaptive_window : (from_block initial_window : ℕ) → Fetch
  fetch_logs_with_adaptive_window from_block initial_window =
      adaptive_from (suc (suc to_block - from_block + initial_window)) 0 from_block initial_window
        []
