-- ===== src/Ingestion/Checkpoint/Progress.antt =====
-- The cursor only moves forward, and the replay queue is a set of ranges.
use chainlink_economic_ledge.Prelude.{
  ℕ, ◌≤◌, max, String, some, List, [], ◌∷◌, Bool, not, ◌&&◌, ◌||◌, ◌≡◌, refl, inl, inr, ◌==◌,
  nat_eq, string_eq, pair_eq, pair_beq_iff, Bool-cases, Option-cases, ltb, contains, filter,
  get_some, arith, if◌then◌else◌,
}
use chainlink_economic_ledge.Prelude.Members.{contains-append_one}
use chainlink_economic_ledge.Prelude.Dict.{lookup, lookup-insert}
use chainlink_economic_ledge.Ingestion.Checkpoint.{
  CheckpointState, Key, Checkpoint, save, last_processed_block, pending_replays, advance,
  mark_replay, clear_replay, add_replay, fresh_state,
}
use chainlink_economic_ledge.Ingestion.Checkpoint.Restart.{Step, Reachable, load-stored-Reachable}

-- The two keys name one source.
abbrev pub same_source : Key → Key → Bool
same_source j k = j == k

-- Advancing sets the cursor of the source to the larger of its old and the given block, and moves
-- no other cursor.
pub advance-last_processed_block :
    (c : Checkpoint) (n : ℕ) (s : String) (b : ℕ) (h : String) (m : ℕ) (t : String)
    → last_processed_block (advance c n s b h) m t ≡ (
        if same_source (n, s) (m, t)
        then max (last_processed_block c m t) b
        else last_processed_block c m t)
unfolding advance last_processed_block save
advance-last_processed_block c n s b h m t = elim (Option-cases (lookup (n, s) c.state)) [
  | inl missing ↦
      rw (advance, missing, last_processed_block, lookup-insert (n, s) (m, t) _ c.state)
        (ground (arith, pair_beq_iff (n, s) (m, t)))
  | inr (u, found) ↦ elim (Bool-cases (ltb u.last_block b)) [
    | inl later ↦
        rw (advance, found, later, last_processed_block, lookup-insert (n, s) (m, t) _ c.state)
          (ground (arith, pair_beq_iff (n, s) (m, t)))
    | inr stale ↦ rw (advance, found, stale) (ground (arith, pair_beq_iff (n, s) (m, t)))
  ]
]

mark_replay-lookup :
    (c : Checkpoint) (n : ℕ) (s : String) (from to : ℕ) (k : Key)
    → lookup k (mark_replay c n s from to).state ≡ (
        if same_source (n, s) k
        then some (add_replay (from, to) (get_some (fresh_state n s) (lookup (n, s) c.state)))
        else lookup k c.state)
unfolding mark_replay save
mark_replay-lookup c n s from to k = lookup-insert (n, s) k _ c.state

-- From a state that a process can come to, no operation, nor a restart, sets the cursor of any
-- source back.
pub Step-last_processed_block :
    (es : List CheckpointState) (c d : Checkpoint)
    → Reachable es c
    → Step c d
    → (m : ℕ) (t : String) → last_processed_block c m t ≤ last_processed_block d m t
unfolding last_processed_block clear_replay save
Step-last_processed_block es _ _ r (Step.restarts c) m t =
    rw (load-stored-Reachable es c r) (omega arith)
Step-last_processed_block es _ _ r (Step.advances c n s b h) m t =
    ground (arith, advance-last_processed_block c n s b h m t)
Step-last_processed_block es _ _ r (Step.marks c n s from to) m t =
    rw (last_processed_block, mark_replay-lookup c n s from to (m, t))
      (ground (arith, pair_beq_iff (n, s) (m, t)))
Step-last_processed_block es _ _ r (Step.clears c n s from to) m t =
    elim (Option-cases (lookup (n, s) c.state)) [
      | inl missing ↦ rw (clear_replay, missing) (omega arith)
      | inr (u, found) ↦
          rw (clear_replay, found, last_processed_block, lookup-insert (n, s) (m, t) _ c.state)
            (ground (arith, pair_beq_iff (n, s) (m, t)))
    ]

contains-drop :
    (xs : List (ℕ × ℕ)) (r q : ℕ × ℕ)
    → contains (filter (λ p. not (p == r)) xs) q ≡ (contains xs q && not (r == q))
contains-drop [] r q = refl
contains-drop (x ∷ xs) r q =
    ground (arith, contains-drop xs r q, pair_beq_iff x r, pair_beq_iff x q, pair_beq_iff r q)

-- Marking a range makes it pending for its source, and changes nothing else that is pending.
pub mark_replay-pending_replays :
    (c : Checkpoint) (n : ℕ) (s : String) (from to m : ℕ) (t : String) (q : ℕ × ℕ)
    → contains (pending_replays (mark_replay c n s from to) m t) q
      ≡ (contains (pending_replays c m t) q || same_source (n, s) (m, t) && (from, to) == q)
unfolding pending_replays
mark_replay-pending_replays c n s from to m t q =
    rw (pending_replays, mark_replay-lookup c n s from to (m, t))
      (ground (
        arith,
        pair_beq_iff (n, s) (m, t),
        pair_beq_iff (from, to) q,
        contains-append_one (pending_replays c n s) (from, to) q,
      ))

-- Clearing a range takes it off the queue of its source, and changes nothing else that is pending.
pub clear_replay-pending_replays :
    (c : Checkpoint) (n : ℕ) (s : String) (from to m : ℕ) (t : String) (q : ℕ × ℕ)
    → contains (pending_replays (clear_replay c n s from to) m t) q
      ≡ (contains (pending_replays c m t) q && not (same_source (n, s) (m, t) && (from, to) == q))
unfolding clear_replay pending_replays save
clear_replay-pending_replays c n s from to m t q = elim (Option-cases (lookup (n, s) c.state)) [
  | inl missing ↦ rw (clear_replay, missing) (ground (arith, pair_beq_iff (n, s) (m, t)))
  | inr (u, found) ↦
      rw (clear_replay, found, pending_replays, lookup-insert (n, s) (m, t) _ c.state)
        (ground (arith, pair_beq_iff (n, s) (m, t), contains-drop u.pending_replays (from, to) q))
]
