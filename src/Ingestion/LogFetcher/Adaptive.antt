-- ===== src/Ingestion/LogFetcher/Adaptive.antt =====
-- The adaptive fetch ends, fails only on narrow requests, and returns the whole range.
use mathlib.Core.List.{append_assoc, append-nil}
use chainlink_economic_ledge.Prelude.{
  ℕ, zero, suc, ◌+◌, ◌-◌, ◌*◌, ◌/◌, ◌≤◌, ◌<◌, none, some, List, [], ◌++◌, ◌≡◌, ◌≢◌, sym, ap, ◌∙◌,
  arith, pos, leb, ltb, Bool-cases, Option-cases, inl, inr,
}
use chainlink_economic_ledge.Decoder.Types.{RawLog}
use chainlink_economic_ledge.Ingestion.LogFetcher.{
  Node, Fetch, adaptive_from, fetch_logs_with_adaptive_window, window_end, block_after,
}
use chainlink_economic_ledge.Ingestion.LogFetcher.Windows.{
  last_block, window_end-last_block, block_after-window_end, logs_of, logs_of-append, Serves,
}

-- A request inside a range that raised, for fewer blocks than twice the smallest window.
pub record NarrowFailure (get_logs : Node) (from to min_window : ℕ) : Type 0 where
  pub request : ℕ
  pub first : ℕ
  pub last : ℕ
  pub inside : (from ≤ first) × (first ≤ last) × (last ≤ to)
  pub narrow : suc last - first < 2 * min_window
  pub raises : get_logs request first (pos last) ≡ none

module _ (get_logs : Node) (to min_window : ℕ) where
  -- What a way out tells, when the logs before a block are already collected.
  abbrev Explains : (chain : ℕ → List RawLog) → ℕ → List RawLog → Fetch → Type 0
  Explains chain cur out (Fetch.returned logs) =
      Serves get_logs chain → logs ≡ out ++ logs_of chain cur (suc to - cur)
  Explains chain cur out Fetch.raised = NarrowFailure get_logs cur to min_window
  Explains chain cur out Fetch.out_of_fuel = ⊥

  -- From a later block with the logs up to there, it tells what it does from the earlier block.
  Explains-earlier :
      (chain : ℕ → List RawLog) (cur last next : ℕ) (out logs : List RawLog) (request : ℕ)
      → next ≡ suc last
      → cur ≤ last
      → last ≤ to
      → get_logs request cur (pos last) ≡ some logs
      → (f : Fetch) → Explains chain next (out ++ logs) f
      → Explains chain cur out f
  Explains-earlier chain cur last next out logs request after here there answer (Fetch.returned all)
        h =
      λ serves.
        h serves
        ∙ append_assoc out logs (logs_of chain next (suc to - next))
        ∙ ap (λ ls. out ++ ls)
            (ap (λ ls. ls ++ logs_of chain next (suc to - next))
                (serves request cur last logs answer)
              ∙ logs_of-append chain (suc last - cur) cur next (suc to - next) (suc to - cur)
                  (omega arith) (omega arith))
  Explains-earlier chain cur last next out logs request after here there answer Fetch.raised h =
      record {
        request = h.request;
        first = h.first;
        last = h.last;
        inside = (omega (arith, h.inside), h.inside.1, h.inside.2);
        narrow = h.narrow;
        raises = h.raises;
      }
  Explains-earlier chain cur last next out logs request after here there answer Fetch.out_of_fuel
        h =
      h

  adaptive_from-Explains :
      1 ≤ min_window
      → (chain : ℕ → List RawLog) (fuel request cur window : ℕ) (out : List RawLog) → 1 ≤ window
      → suc to - cur + window < fuel
      → Explains chain cur out (adaptive_from get_logs to min_window fuel request cur window out)
  unfolding adaptive_from
  adaptive_from-Explains positive chain zero request cur window out wide enough =
      absurd (omega arith)
  adaptive_from-Explains positive chain (suc fuel) request cur window out wide enough =
      elim (Bool-cases (leb cur to)) [
        | inr over ↦
            let done : suc to - cur ≡ 0 = ground arith in
            rw over (λ serves. rw done (sym (append-nil out)))
        | inl more ↦
            let inside : cur ≤ to = ground arith in
            let end = window_end-last_block cur window to wide inside in
            let last = last_block cur window to in
            rw (more, end.0)
              (elim (Option-cases (get_logs request cur (pos last))) [
                | inr (logs, answer) ↦ rw answer (
                    Explains-earlier chain cur last (block_after (window_end cur window to)) out
                      logs request (ap block_after end.0) end.1 (omega arith) answer _
                      (adaptive_from-Explains positive chain fuel (suc request)
                        (block_after (window_end cur window to)) window (out ++ logs) wide
                        (omega (arith, end.1, block_after-window_end cur window to))))
                | inl failed ↦ rw failed (elim (Bool-cases (ltb (window / 2) min_window)) [
                  | inl small ↦ rw small (record {
                    request = request;
                    first = cur;
                    last = last;
                    inside = (omega arith, end.1, omega arith);
                    narrow = ground arith;
                    raises = failed;
                  })
                  | inr large ↦
                      let room : min_window ≤ window / 2 = ground arith in
                      rw large (
                        adaptive_from-Explains positive chain fuel (suc request) cur (window / 2)
                          out (omega arith) (omega arith))
                ])
              ])
      ]

module _ (get_logs : Node) (from to initial_window min_window : ℕ) where
  fetch-Explains :
      1 ≤ min_window
      → 1 ≤ initial_window
      → (chain : ℕ → List RawLog)
      → Explains get_logs to min_window chain from []
          (fetch_logs_with_adaptive_window get_logs to min_window from initial_window)
  unfolding fetch_logs_with_adaptive_window
  fetch-Explains positive wide chain =
      adaptive_from-Explains get_logs to min_window positive chain
        (suc (suc to - from + initial_window)) 0 from initial_window [] wide (omega arith)

  -- The fetch ends, whatever the node answers to its requests, when both windows are of at least one
  -- block.
  pub fetch_logs_with_adaptive_window-ends :
      1 ≤ min_window
      → 1 ≤ initial_window
      → fetch_logs_with_adaptive_window get_logs to min_window from initial_window
        ≢ Fetch.out_of_fuel
  fetch_logs_with_adaptive_window-ends positive wide e =
      rw e at (fetch-Explains positive wide (λ b. []))

  -- When both windows are of at least one block, the fetch raises only after a request inside its
  -- range has raised that was for fewer blocks than twice the smallest window.
  pub fetch_logs_with_adaptive_window-NarrowFailure :
      1 ≤ min_window
      → 1 ≤ initial_window
      → fetch_logs_with_adaptive_window get_logs to min_window from initial_window ≡ Fetch.raised
      → NarrowFailure get_logs from to min_window
  fetch_logs_with_adaptive_window-NarrowFailure positive wide e =
      rw e at (fetch-Explains positive wide (λ b. []))

  -- When both windows are of at least one block, the node's answers are right, and no request inside
  -- the range for fewer blocks than twice the smallest window raises, the fetch returns the logs of all blocks of the range in order, no
  -- block twice and none left out, however many wider requests have raised.
  pub fetch_logs_with_adaptive_window-logs_of :
      (chain : ℕ → List RawLog)
      → 1 ≤ min_window
      → 1 ≤ initial_window
      → Serves get_logs chain
      → ¬ NarrowFailure get_logs from to min_window
      → fetch_logs_with_adaptive_window get_logs to min_window from initial_window
        ≡ Fetch.returned (logs_of chain from (suc to - from))
  fetch_logs_with_adaptive_window-logs_of chain positive wide serves answers =
      ended (fetch_logs_with_adaptive_window get_logs to min_window from initial_window)
        (fetch-Explains positive wide chain)
    where
      ended :
          (f : Fetch)
          → Explains get_logs to min_window chain from [] f
          → f ≡ Fetch.returned (logs_of chain from (suc to - from))
      ended (Fetch.returned logs) h = ap Fetch.returned (h serves)
      ended Fetch.raised h = absurd (answers h)
      ended Fetch.out_of_fuel h = absurd h
