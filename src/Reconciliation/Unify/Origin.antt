-- ===== src/Reconciliation/Unify/Origin.antt =====
-- The union of the log and the trace movements invents nothing.
use mathlib.Core.List.{flat_map}
use chainlink_economic_ledge.Prelude.{
  String, List, [], ◌∷◌, ◌++◌, Bool, ◌&&◌, not, inl, inr, string_eq, int_eq, pair_eq, Bool-cases,
  Option-cases, All, All-imp, All-self, All-append, All-filter_mem, filter, length, eqb,
}
use chainlink_economic_ledge.Prelude.Dict.{
  Dict, lookup, insert, values, group_by, IsDistinct, insert-IsDistinct, All-group_by,
}
use chainlink_economic_ledge.Prelude.Dict.Values.{All-values_of_found}
use chainlink_economic_ledge.Prelude.Sort.{insert_sorted, sort}
use chainlink_economic_ledge.Prelude.Members.{mem-append_left, mem-append_right}
use chainlink_economic_ledge.Reconciliation.Movement.{TokenMovement}
use chainlink_economic_ledge.Reconciliation.Unify.{
  bucket_key, is_log, is_trace, absorb, index_logs, add_trace, add_traces, pair_up, resolve_bucket,
  unify_unsorted, unify_movements, le_movement,
}
use chainlink_economic_ledge.Reconciliation.Unify.Sources.{
  IsObserved, absorb-IsObserved, index_logs-IsIndex, add_traces-IsIndex,
}

index_logs-IsDistinct :
    (d : Dict String TokenMovement) (logs : List TokenMovement)
    → IsDistinct d
    → IsDistinct (index_logs d logs)
unfolding index_logs
index_logs-IsDistinct d [] h = h
index_logs-IsDistinct d (m ∷ logs) h =
    index_logs-IsDistinct (insert m.movement_id m d) logs (insert-IsDistinct m.movement_id m d h)

add_traces-IsDistinct :
    (d : Dict String TokenMovement) (ts : List TokenMovement)
    → IsDistinct d
    → IsDistinct (add_traces d ts)
unfolding add_traces add_trace
add_traces-IsDistinct d [] h = h
add_traces-IsDistinct d (t ∷ ts) h = add_traces-IsDistinct (add_trace d t) ts one
  where
    one : IsDistinct (add_trace d t)
    one = elim (Option-cases (lookup t.movement_id d)) [
      | inl new ↦ rw (add_trace, new) (insert-IsDistinct t.movement_id t d h)
      | inr (u, at) ↦ rw (add_trace, at) (insert-IsDistinct t.movement_id (absorb u t) d h)
    ]

All-flat_map :
    (P : TokenMovement → Type 0) (f : List TokenMovement → List TokenMovement)
    (xs : List (List TokenMovement))
    → ((x : List TokenMovement) → All P x → All P (f x))
    → All (All P) xs
    → All P (flat_map f xs)
unfolding flat_map
All-flat_map P f [] step h = tt
All-flat_map P f (x ∷ xs) step h =
    All-append P (f x) (flat_map f xs) (step x h.0) (All-flat_map P f xs step h.1)

All-insert_sorted :
    (P : TokenMovement → Type 0) (m : TokenMovement) (xs : List TokenMovement)
    → P m
    → All P xs
    → All P (insert_sorted le_movement m xs)
All-insert_sorted P m [] h k = (h, tt)
All-insert_sorted P m (x ∷ xs) h k = elim (Bool-cases (le_movement m x)) [
  | inl e ↦ rw e (h, k)
  | inr e ↦ rw e (k.0, All-insert_sorted P m xs h k.1)
]

All-sort :
    (P : TokenMovement → Type 0) (xs : List TokenMovement) → All P xs → All P (sort le_movement xs)
All-sort P [] h = tt
All-sort P (x ∷ xs) h = All-insert_sorted P x (sort le_movement xs) h.0 (All-sort P xs h.1)

module _ (observed : List TokenMovement) where
  abbrev Seen : TokenMovement → Type 0
  Seen = IsObserved observed

  pair_up-Seen : (ls ts : List TokenMovement) → All Seen ls → All Seen (pair_up ls ts)
  unfolding pair_up
  pair_up-Seen [] ts h = tt
  pair_up-Seen (l ∷ ls) [] h = tt
  pair_up-Seen (l ∷ ls) (t ∷ ts) h = (absorb-IsObserved observed l t h.0, pair_up-Seen ls ts h.1)

  Seen-filter :
      (p : TokenMovement → Bool) (xs : List TokenMovement) → All Seen xs → All Seen (filter p xs)
  Seen-filter p xs h = All-imp (λ a q. q.0) (filter p xs) (All-filter_mem Seen p xs h)

  resolve_bucket-Seen :
      (entries : List TokenMovement) → All Seen entries → All Seen (resolve_bucket entries)
  unfolding resolve_bucket
  resolve_bucket-Seen entries h =
      let logs = filter is_log entries in
      let traces = filter is_trace entries in
      elim (Bool-cases (
        (not (eqb (length logs) 0) && not (eqb (length traces) 0))
        && eqb (length logs) (length traces))) [
          | inl even ↦
              rw (resolve_bucket, even) (pair_up-Seen logs traces (Seen-filter is_log entries h))
          | inr odd ↦ rw (resolve_bucket, odd) h
        ]

-- Each movement of the union has the id, the block, the transaction, the parties and the amount of
-- a log or a trace movement.
pub unify_movements-IsObserved :
    (logs traces : List TokenMovement)
    → All (IsObserved (logs ++ traces)) (unify_movements logs traces)
unfolding unify_movements unify_unsorted
unify_movements-IsObserved logs traces =
    let observed = logs ++ traces in
    let d = add_traces (index_logs [] logs) traces in
    let index =
      add_traces-IsIndex observed (index_logs [] logs) traces
        (All-imp (λ a q. mem-append_right logs q) traces (All-self traces))
        (index_logs-IsIndex observed [] logs
          (All-imp (λ a q. mem-append_left traces q) logs (All-self logs)) (λ k u at. cc)) in
    let in_dict =
      All-values_of_found (IsObserved observed) d
        (add_traces-IsDistinct (index_logs [] logs) traces (index_logs-IsDistinct [] logs tt))
        (λ k u at. (index k u at).1) in
    All-sort (IsObserved observed) (unify_unsorted logs traces) (
      All-flat_map (IsObserved observed) resolve_bucket (values (group_by bucket_key (values d)))
        (resolve_bucket-Seen observed)
        (All-group_by (All (IsObserved observed)) bucket_key (values d)
          (λ k. Seen-filter observed _ (values d) in_dict) tt))
