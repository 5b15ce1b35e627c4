-- ===== src/Ingestion/LogFetcher/Windows.antt =====
-- The windows of a fetch tile its range.
use mathlib.Core.List.{append_assoc}
use chainlink_economic_ledge.Prelude.{
  ℕ, zero, suc, ◌+◌, ◌-◌, ◌≤◌, ◌<◌, min, none, some, List, [], ◌++◌, ◌≡◌, refl, ap, ◌∙◌, arith, pos,
  leb, Bool-cases, Option-cases, inl, inr,
}
use chainlink_economic_ledge.Decoder.Types.{RawLog}
use chainlink_economic_ledge.Ingestion.LogFetcher.{
  Node, Yields, windows_from, fetch_logs_windowed, window_end, block_after,
}

-- The last block of a window.
abbrev pub last_block : ℕ → ℕ → ℕ → ℕ
last_block cur window to = min (cur + window - 1) to

pub window_end-last_block :
    (cur window to : ℕ)
    → 1 ≤ window
    → cur ≤ to
    → (window_end cur window to ≡ pos (last_block cur window to)) × (cur ≤ last_block cur window to)
window_end-last_block cur window to wide inside = ground arith

pub block_after-window_end :
    (cur window to : ℕ)
    → 1 ≤ window
    → cur ≤ to
    → block_after (window_end cur window to) ≡ min (cur + window) (suc to)
block_after-window_end cur window to wide inside = ground arith

-- The logs of `n` blocks from the first on, given those of each block.
abbrev pub logs_of : (ℕ → List RawLog) → ℕ → ℕ → List RawLog
logs_of chain first zero = []
logs_of chain first (suc n) = chain first ++ logs_of chain (suc first) n

pub logs_of-append :
    (chain : ℕ → List RawLog) (m first next n total : ℕ)
    → first + m ≡ next
    → m + n ≡ total
    → logs_of chain first m ++ logs_of chain next n ≡ logs_of chain first total
logs_of-append chain zero first next n total here sum =
    let same : next ≡ first = omega arith in
    let all : n ≡ total = omega arith in rw (same, all) refl
logs_of-append chain (suc m) first next n zero here sum = absurd (omega arith)
logs_of-append chain (suc m) first next n (suc total) here sum =
    append_assoc (chain first) (logs_of chain (suc first) m) (logs_of chain next n)
    ∙ ap (λ ls. chain first ++ ls)
        (logs_of-append chain m (suc first) next n total (omega arith) (omega arith))

-- Every answer of the node holds the logs of the blocks that were asked for.
abbrev pub Serves : Node → (ℕ → List RawLog) → Type 0
Serves get_logs chain =
    (request first last : ℕ) (logs : List RawLog)
    → get_logs request first (pos last) ≡ some logs
    → logs ≡ logs_of chain first (suc last - first)

module _ (get_logs : Node) (chain : ℕ → List RawLog) (to window : ℕ) where
  -- From a block on, each window yields the logs of the next `window` blocks, the last one those up
  -- to the end of the range. An exception is that of a request for the next window.
  pub Tiles : ℕ → Yields → Type 0
  Tiles cur Yields.finished = to < cur
  Tiles cur Yields.raised =
      (cur ≤ to) × (request : ℕ) × (get_logs request cur (pos (last_block cur window to)) ≡ none)
  Tiles cur Yields.out_of_fuel = ⊥
  Tiles cur (Yields.yielded logs rest) =
      (cur ≤ to)
      × (logs ≡ logs_of chain cur (min window (suc to - cur)))
      × Tiles (min (cur + window) (suc to)) rest

  windows_from-Tiles :
      Serves get_logs chain
      → 1 ≤ window
      → (fuel request cur : ℕ) → suc to - cur < fuel
      → Tiles cur (windows_from get_logs to fuel request cur window)
  unfolding Tiles windows_from
  windows_from-Tiles serves wide zero request cur enough = absurd (omega arith)
  windows_from-Tiles serves wide (suc fuel) request cur enough = elim (Bool-cases (leb cur to)) [
    | inr over ↦ rw over (ground arith)
    | inl more ↦
        let inside : cur ≤ to = ground arith in
        let last = window_end-last_block cur window to wide inside in
        rw (more, last.0)
          (elim (Option-cases (get_logs request cur (pos (last_block cur window to)))) [
            | inl failed ↦ rw failed (inside, request, failed)
            | inr (logs, answer) ↦
                let next : block_after (window_end cur window to) ≡ min (cur + window) (suc to) =
                  block_after-window_end cur window to wide inside in
                let count : suc (last_block cur window to) - cur ≡ min window (suc to - cur) =
                  omega arith in
                rw answer (
                  inside,
                  rw count at (serves request cur (last_block cur window to) logs answer),
                  rw (← next) (
                      windows_from-Tiles serves wide fuel (suc request)
                        (block_after (window_end cur window to)) (omega (arith, next))),
                )
          ])
  ]

  -- With windows of at least one block and a node whose answers are right, the fetch ends, and it
  -- yields the logs of the range from its first block to its last, window after window: each window
  -- has the given number of blocks, except that the last one stops at the end of the range. It ends
  -- at the first request that raises, if there is one.
  pub fetch_logs_windowed-Tiles :
      Serves get_logs chain
      → 1 ≤ window
      → (from : ℕ) → Tiles from (fetch_logs_windowed get_logs to from window)
  unfolding fetch_logs_windowed
  fetch_logs_windowed-Tiles serves wide from =
      windows_from-Tiles serves wide (suc (suc to - from)) 0 from (omega arith)
