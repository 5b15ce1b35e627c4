-- ===== src/Lineage/RunMetadata.antt =====
-- lineage/run_metadata.py: the files that keep the metadata of runs. A file is its name and the
-- record that its JSON stands for; the digest is a parameter, a FileNotFoundError is a `none`.
use Prim.Native.String.{◌++◌}
use text.Mathlib.TextLemmas.{append_cancel_right}
use chainlink_economic_ledge.Prelude.{
  ℕ, String, Option, some, List, [], ◌∷◌, string_eq, ◌==◌, if◌then◌else◌, ◌≡◌, refl, ap, Bool-cases,
  inl, inr,
}
use chainlink_economic_ledge.Prelude.Text.{show_ℕ, join}
use chainlink_economic_ledge.Prelude.Dict.{Dict, lookup, insert, lookup-insert}

pub data RunStatus : Type 0 where
  running success failed : RunStatus

pub record RunMetadata : Type 0 where
  pub run_id : String
  pub dag_id : String
  pub chain_id : ℕ
  pub started_at : ℕ
  pub completed_at : Option ℕ
  pub status : RunStatus
  pub partitions_processed : ℕ
  pub manifest_ids : List String

unfoldable pub compute_run_partition_id :
    (String → String) → (chain_id : ℕ) → (dag_id run_id source_name partition_key : String) → String
compute_run_partition_id sha256 chain_id dag_id run_id source_name partition_key = sha256 (
    join "|"
      ("run_partition" ∷ show_ℕ chain_id ∷ dag_id ∷ run_id ∷ source_name ∷ partition_key ∷ []))

-- The name of the file of a run.
abbrev pub file_of : String → String
file_of run_id = run_id ++ ".json"

-- The record that is written and returned, and the files after it.
unfoldable pub record_run :
    (dag_id run_id : String)
    → (chain_id : ℕ) → RunStatus
    → (partitions : ℕ) → List String
    → (started_at : ℕ) → (completed_at : Option ℕ) → Dict String RunMetadata
    → RunMetadata × Dict String RunMetadata
record_run dag_id run_id chain_id status partitions manifest_ids started_at completed_at files =
    let meta : RunMetadata = record {
      run_id = run_id;
      dag_id = dag_id;
      chain_id = chain_id;
      started_at = started_at;
      completed_at = completed_at;
      status = status;
      partitions_processed = partitions;
      manifest_ids = manifest_ids;
    } in
    (meta, insert (file_of run_id) meta files)

unfoldable pub get_run_metadata : String → Dict String RunMetadata → Option RunMetadata
get_run_metadata run_id files = lookup (file_of run_id) files

-- After record_run, get_run_metadata returns for this run the record that record_run returned,
-- whatever was there, and for any other run what it returned before.
pub get_run_metadata-record_run :
    (dag_id run_id : String) (chain_id : ℕ) (status : RunStatus) (partitions : ℕ)
    (manifest_ids : List String) (started_at : ℕ) (completed_at : Option ℕ)
    (files : Dict String RunMetadata) (asked : String)
    → let written =
        record_run dag_id run_id chain_id status partitions manifest_ids started_at completed_at
          files in
      get_run_metadata asked written.1
      ≡ (if run_id == asked then some written.0 else get_run_metadata asked files)
unfolding record_run get_run_metadata
get_run_metadata-record_run dag_id run_id chain_id status partitions manifest_ids started_at
      completed_at files asked =
    let meta =
      (record_run dag_id run_id chain_id status partitions manifest_ids started_at completed_at
        files).0 in
    rw (get_run_metadata, record_run, lookup-insert (file_of run_id) (file_of asked) meta files)
      (elim (Bool-cases (run_id == asked)) [
        | inl e ↦
            let same = ap file_of ((string_eq.beq_iff run_id asked).0 e) in
            rw ((string_eq.beq_iff (file_of run_id) (file_of asked)).1 same, e) refl
        | inr e ↦ elim (Bool-cases (file_of run_id == file_of asked)) [
          | inl named ↦
              let same =
                append_cancel_right run_id asked ".json"
                  ((string_eq.beq_iff (file_of run_id) (file_of asked)).0 named) in
              absurd (cc (e, (string_eq.beq_iff run_id asked).1 same))
          | inr named ↦ rw (named, e) refl
        ]
      ])
