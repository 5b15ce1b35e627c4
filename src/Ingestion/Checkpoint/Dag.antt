-- ===== src/Ingestion/Checkpoint/Dag.antt =====
-- ingestion/checkpoint.py: the checkpoint of a DAG, one file for each chain and DAG. A file is its
-- name and the entries of its JSON.
use Prim.Native.String.{◌++◌}
use text.Mathlib.TextLemmas.{append_cancel_left, append_cancel_right}
use chainlink_economic_ledge.Prelude.{
  ℕ, zero, suc, String, Option, none, some, string_eq, eqb, ◌==◌, if◌then◌else◌, ◌≡◌, refl, ap,
  true, Bool-cases, inl, inr, arith,
}
use chainlink_economic_ledge.Prelude.Text.{show_ℕ}
use chainlink_economic_ledge.Prelude.Dict.{Dict, lookup, insert, lookup-insert}

pub record DagCheckpoint : Type 0 where
  pub chain_id : ℕ
  pub dag_id : String
  pub block_number : ℕ
  pub run_partition_id : String

abbrev pub checkpoint_path : ℕ → String → String
checkpoint_path chain_id key = show_ℕ chain_id ++ ("_" ++ (key ++ ".json"))

-- `n or None`
abbrev pub or_none : ℕ → Option ℕ
or_none zero = none
or_none (suc n) = some (suc n)

unfoldable pub get_last_processed_block : ℕ → String → Dict String DagCheckpoint → Option ℕ
get_last_processed_block chain_id dag_id files =
    elim (lookup (checkpoint_path chain_id ("dag_" ++ dag_id)) files) [
      | none ↦ none
      | some payload ↦ or_none payload.block_number
    ]

unfoldable pub set_last_processed_block :
    ℕ → String → ℕ → String → Dict String DagCheckpoint → Dict String DagCheckpoint
set_last_processed_block chain_id dag_id block run_partition_id files =
    insert (checkpoint_path chain_id ("dag_" ++ dag_id))
      (record {
        chain_id = chain_id;
        dag_id = dag_id;
        block_number = block;
        run_partition_id = run_partition_id;
      })
      files

path-same :
    (chain_id : ℕ) (d e : String)
    → checkpoint_path chain_id ("dag_" ++ d) ≡ checkpoint_path chain_id ("dag_" ++ e)
    → d ≡ e
path-same chain_id d e same = append_cancel_left "dag_" d e (
    append_cancel_right ("dag_" ++ d) ("dag_" ++ e) ".json" (
      append_cancel_left "_" (("dag_" ++ d) ++ ".json") (("dag_" ++ e) ++ ".json") (
        append_cancel_left (show_ℕ chain_id) ("_" ++ (("dag_" ++ d) ++ ".json"))
          ("_" ++ (("dag_" ++ e) ++ ".json")) same)))

or_none-eqb : (n : ℕ) → or_none n ≡ (if eqb n 0 then none else some n)
or_none-eqb zero = refl
or_none-eqb (suc n) = ground arith

-- After set_last_processed_block for a DAG, get_last_processed_block returns for this DAG the block
-- that was set, but None where that is block 0, and for the other DAGs of the chain what it returned
-- before.
pub get_last_processed_block-set :
    (chain_id : ℕ) (dag_id other : String) (block : ℕ) (run_partition_id : String)
    (files : Dict String DagCheckpoint)
    → get_last_processed_block chain_id other
        (set_last_processed_block chain_id dag_id block run_partition_id files)
      ≡ (if dag_id == other
          then (if eqb block 0 then none else some block)
          else get_last_processed_block chain_id other files)
unfolding get_last_processed_block set_last_processed_block
get_last_processed_block-set chain_id dag_id other block run_partition_id files =
    let written = checkpoint_path chain_id ("dag_" ++ dag_id) in
    let read = checkpoint_path chain_id ("dag_" ++ other) in
    rw (get_last_processed_block, set_last_processed_block, lookup-insert written read _ files)
      (elim (Bool-cases (written == read)) [
        | inl e ↦
            let same = path-same chain_id dag_id other ((string_eq.beq_iff written read).0 e) in
            let named = (string_eq.beq_iff dag_id other).1 same in rw (e, named) (or_none-eqb block)
        | inr e ↦ elim (Bool-cases (dag_id == other)) [
          | inl named ↦
              let same = (string_eq.beq_iff dag_id other).0 named in
              let clash : (written == read) ≡ true =
                (string_eq.beq_iff written read).1
                  (ap (λ k. checkpoint_path chain_id ("dag_" ++ k)) same) in
              absurd (cc (e, clash))
          | inr named ↦ rw (e, named) refl
        ]
      ])
