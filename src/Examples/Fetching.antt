-- ===== src/Examples/Fetching.antt =====
-- A node that refuses wide requests, and one that refuses all.
use chainlink_economic_ledge.Prelude.{
  ℕ, suc, ◌-◌, none, some, List, [], ◌∷◌, ◌≡◌, ◌≢◌, refl, leb, pos, negsuc, if◌then◌else◌, arith,
}
use chainlink_economic_ledge.Decoder.Types.{RawLog}
use chainlink_economic_ledge.Ingestion.LogFetcher.{
  Node, Yields, Fetch, fetch_logs_windowed, fetch_logs_with_adaptive_window, windows_from,
  adaptive_from,
}
use chainlink_economic_ledge.Ingestion.LogFetcher.Windows.{
  logs_of, Serves, Tiles, fetch_logs_windowed-Tiles,
}
use chainlink_economic_ledge.Ingestion.LogFetcher.Adaptive.{
  NarrowFailure, fetch_logs_with_adaptive_window-ends,
  fetch_logs_with_adaptive_window-NarrowFailure, fetch_logs_with_adaptive_window-logs_of,
}

-- One log in each block.
abbrev chain : ℕ → List RawLog
chain b =
    record {
      chain_id = 1;
      block_number = b;
      block_hash = "0xb";
      tx_hash = "0xt";
      tx_index = 0;
      log_index = 0;
      address = "0xpool";
      topics = [];
      log_data = "0x";
    }
    ∷ []

-- At most three blocks in a request.
abbrev careful_node : Node
careful_node request first (pos last) =
    if leb (suc last - first) 3 then some (logs_of chain first (suc last - first)) else none
careful_node request first (negsuc n) = some []

abbrev broken_node : Node
broken_node request first last = none

careful_node-Serves : Serves careful_node chain
careful_node-Serves request first last logs e = ground arith

careful_node_answers : ¬ NarrowFailure careful_node 10 16 2
careful_node_answers failure = ground (arith, failure.narrow, failure.raises)

fetch_logs_windowed-Tiles_example :
    Tiles careful_node chain 16 3 10 (fetch_logs_windowed careful_node 16 10 3)
fetch_logs_windowed-Tiles_example =
    fetch_logs_windowed-Tiles careful_node chain 16 3 careful_node-Serves (omega arith) 10

three_windows :
    fetch_logs_windowed careful_node 16 10 3
    ≡ Yields.yielded
        (logs_of chain 10 3)
        (Yields.yielded (logs_of chain 13 3) (Yields.yielded (logs_of chain 16 1) Yields.finished))
unfolding fetch_logs_windowed windows_from
three_windows = refl

fetch_logs_with_adaptive_window-logs_of_example :
    fetch_logs_with_adaptive_window careful_node 16 2 10 2000
    ≡ Fetch.returned (logs_of chain 10 (17 - 10))
fetch_logs_with_adaptive_window-logs_of_example =
    fetch_logs_with_adaptive_window-logs_of careful_node 10 16 2000 2 chain (omega arith)
      (omega arith) careful_node-Serves careful_node_answers

fetch_logs_with_adaptive_window-ends_example :
    fetch_logs_with_adaptive_window broken_node 16 32 10 2000 ≢ Fetch.out_of_fuel
fetch_logs_with_adaptive_window-ends_example =
    fetch_logs_with_adaptive_window-ends broken_node 10 16 2000 32 (omega arith) (omega arith)

broken_node_raises : fetch_logs_with_adaptive_window broken_node 16 32 10 100 ≡ Fetch.raised
unfolding fetch_logs_with_adaptive_window adaptive_from
broken_node_raises = refl

fetch_logs_with_adaptive_window-NarrowFailure_example : NarrowFailure broken_node 10 16 32
fetch_logs_with_adaptive_window-NarrowFailure_example =
    fetch_logs_with_adaptive_window-NarrowFailure broken_node 10 16 100 32 (omega arith)
      (omega arith) broken_node_raises
