-- ===== src/Reconciliation/Unify.antt =====
-- reconciliation/movement_builder.py, `unify_movements`: one record for each movement, whether a
-- log, a traced call or both observed it.
pub mod Buckets
pub mod Evidence
pub mod Origin
pub mod Sources
pub mod Union
use chainlink_economic_ledge.Prelude.{
  String, List, [], ◌∷◌, ◌++◌, Bool, true, false, ◌&&◌, not, ℤ, filter, length, contains, ◌==◌,
  string_eq, int_eq, pair_eq, ltb, eqb, some, none, if◌then◌else◌,
}
use mathlib.Core.List.{flat_map}
use chainlink_economic_ledge.Prelude.Text.{str_ltb}
use chainlink_economic_ledge.Prelude.Dict.{Dict, lookup, insert, values, group_by}
use chainlink_economic_ledge.Prelude.Sort.{sort}
use chainlink_economic_ledge.Reconciliation.Movement.{Source, TokenMovement}

abbrev pub is_log : TokenMovement → Bool
is_log m = elim m.source_priority [ Source.log ↦ true | Source.trace ↦ false ]

abbrev pub is_trace : TokenMovement → Bool
is_trace m = elim m.source_priority [ Source.log ↦ false | Source.trace ↦ true ]

-- `for ev_id in new: if ev_id and ev_id not in merged: merged.append(ev_id)`
unfoldable pub merge_evidence : List String → List String → List String
merge_evidence merged [] = merged
merge_evidence merged (ev_id ∷ rest) =
    let keep = not (ev_id == "") && not (contains merged ev_id) in
    merge_evidence (if keep then merged ++ ev_id ∷ [] else merged) rest

-- The record of `existing` with the evidence of `other` too: the log wins.
unfoldable pub absorb : TokenMovement → TokenMovement → TokenMovement
unfolding merge_evidence
absorb existing other = record existing {
  evidence_ids = merge_evidence existing.evidence_ids other.evidence_ids;
  source_priority = Source.log;
  is_canonical = true;
}

-- `for m in log_movements: by_id[m.movement_id] = m`
unfoldable pub index_logs :
    Dict String TokenMovement → List TokenMovement → Dict String TokenMovement
index_logs by_id [] = by_id
index_logs by_id (m ∷ rest) = index_logs (insert m.movement_id m by_id) rest

-- One round of `for tm in trace_movements`.
unfoldable pub add_trace : Dict String TokenMovement → TokenMovement → Dict String TokenMovement
unfolding absorb
add_trace by_id tm = elim (lookup tm.movement_id by_id) [
  | some existing ↦ insert tm.movement_id (absorb existing tm) by_id
  | none ↦ insert tm.movement_id tm by_id
]

unfoldable pub add_traces :
    Dict String TokenMovement → List TokenMovement → Dict String TokenMovement
unfolding add_trace
add_traces by_id [] = by_id
add_traces by_id (tm ∷ rest) = add_traces (add_trace by_id tm) rest

-- `(tx_hash, from_addr, to_addr, amount)`
abbrev pub BucketKey : Type 0
BucketKey = (String × String) × (String × ℤ)

abbrev pub bucket_key : TokenMovement → BucketKey
bucket_key m = ((m.tx_hash, m.from_addr), (m.to_addr, m.amount))

-- `zip` of the log entries with the trace entries of a bucket.
unfoldable pub pair_up : List TokenMovement → List TokenMovement → List TokenMovement
unfolding absorb
pair_up [] traces = []
pair_up (l ∷ logs) [] = []
pair_up (l ∷ logs) (t ∷ traces) = absorb l t ∷ pair_up logs traces

unfoldable pub resolve_bucket : List TokenMovement → List TokenMovement
unfolding pair_up
resolve_bucket entries =
    let logs = filter is_log entries in
    let traces = filter is_trace entries in
    let both = not (eqb (length logs) 0) && not (eqb (length traces) 0) in
    if both && eqb (length logs) (length traces) then pair_up logs traces else entries

-- The sort key `(block_number, tx_hash, source_priority, from_addr)`; "log" comes before "trace".
unfoldable pub le_movement : TokenMovement → TokenMovement → Bool
le_movement a b =
    if ltb a.block_number b.block_number
    then true
    else if ltb b.block_number a.block_number
    then false
    else if str_ltb a.tx_hash b.tx_hash
    then true
    else if str_ltb b.tx_hash a.tx_hash
    then false
    else if is_log a && is_trace b
    then true
    else if is_trace a && is_log b
    then false
    else not (str_ltb b.from_addr a.from_addr)

-- The movements of all buckets, before the sort.
unfoldable pub unify_unsorted : List TokenMovement → List TokenMovement → List TokenMovement
unfolding index_logs add_traces resolve_bucket group_by
unify_unsorted log_movements trace_movements =
    let by_id = add_traces (index_logs [] log_movements) trace_movements in
    flat_map resolve_bucket (values (group_by bucket_key (values by_id)))

unfoldable pub unify_movements : List TokenMovement → List TokenMovement → List TokenMovement
unfolding unify_unsorted le_movement
unify_movements log_movements trace_movements =
    sort le_movement (unify_unsorted log_movements trace_movements)
