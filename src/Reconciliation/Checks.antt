-- ===== src/Reconciliation/Checks.antt =====
-- reconciliation/checks.py: the data-quality checks on integers. A list of texts is printed with
-- each text between quotes, for texts without quotes and backslashes in them, as identifiers are.
pub mod Agreement
pub mod Alarms
use chainlink_economic_ledge.Prelude.{
  ℕ, ◌+◌, ◌*◌, ◌-◌, String, Option, none, some, List, [], ◌∷◌, ◌++◌, Bool, true, false, not, ℤ, pos,
  ◌+ℤ◌, ◌-ℤ◌, eqb_ℤ, ltb_ℤ, leb, eqb, max, length, filter, map, take, contains, ◌==◌, string_eq,
  if◌then◌else◌,
}
use Prim.Native.String.{◌++◌ as str_append}
use chainlink_economic_ledge.Prelude.Text.{show_ℕ, show_ℤ, join}
use chainlink_economic_ledge.Prelude.Dict.{Dict, lookup, insert, values}
use chainlink_economic_ledge.Protocols.Staking.Ledger.{LedgerEntry, Direction}
use chainlink_economic_ledge.Reconciliation.Transaction.{TxReconciliation}
use chainlink_economic_ledge.Reconciliation.Partition.{PartitionReconciliation, Ratio}

pub data Severity : Type 0 where
  info warn critical : Severity

-- The metric of the modelled checks is a count.
pub record CheckResult : Type 0 where
  pub name : String
  pub passed : Bool
  pub severity : Severity
  pub detail : String
  pub metric_value : ℕ

abbrev pub sum_unmatched : List TxReconciliation → ℕ
sum_unmatched [] = 0
sum_unmatched (r ∷ rest) = r.unmatched_actions + sum_unmatched rest

unfoldable pub check_no_unmatched_economic_actions : PartitionReconciliation → CheckResult
check_no_unmatched_economic_actions report =
    let unmatched = sum_unmatched report.tx_recons in
    record {
      name = "no_unmatched_economic_actions";
      passed = eqb unmatched 0;
      severity = Severity.critical;
      detail = str_append "unmatched_action_count=" (show_ℕ unmatched);
      metric_value = unmatched;
    }

-- `if ev_id in seen: dupes.append(ev_id)`, then `seen.add(ev_id)`
unfoldable pub duplicates : List String → List String → List String
duplicates seen [] = []
duplicates seen (ev_id ∷ rest) =
    let later = duplicates (ev_id ∷ seen) rest in
    if contains seen ev_id then ev_id ∷ later else later

-- The text of a list of texts.
abbrev pub show_texts : List String → String
show_texts xs = join "" ("[" ∷ join ", " (map (λ x. join "" ("'" ∷ x ∷ "'" ∷ [])) xs) ∷ "]" ∷ [])

unfoldable pub check_no_duplicate_event_ids : List String → CheckResult
unfolding duplicates
check_no_duplicate_event_ids decoded_event_ids =
    let dupes = duplicates [] decoded_event_ids in
    record {
      name = "no_duplicate_event_ids";
      passed = eqb (length dupes) 0;
      severity = Severity.critical;
      detail =
          if eqb (length dupes) 0
          then "no duplicates"
          else join "" (
              "duplicate count="
              ∷ show_ℕ (length dupes)
              ∷ "; first 5="
              ∷ show_texts (take 5 dupes)
              ∷ []);
      metric_value = length dupes;
    }

-- `max(0, now - last)`, which is the truncated difference.
unfoldable pub check_freshness : ℕ → ℕ → ℕ → CheckResult
check_freshness last_block_timestamp now_timestamp max_lag_seconds =
    let lag = now_timestamp - last_block_timestamp in
    record {
      name = "freshness";
      passed = leb lag max_lag_seconds;
      severity = Severity.warn;
      detail =
          join "" ("lag_seconds=" ∷ show_ℕ lag ∷ ", max_allowed=" ∷ show_ℕ max_lag_seconds ∷ []);
      metric_value = lag;
    }

-- `abs(diff)`
abbrev pub abs : ℤ → ℤ
abs a = if ltb_ℤ a (pos 0) then pos 0 -ℤ a else a

unfoldable pub check_balance_consistency : Dict String ℤ → ℤ → CheckResult
check_balance_consistency pool_diffs tolerance_wei =
    let bad = filter (λ p. ltb_ℤ tolerance_wei (abs p.1)) pool_diffs in
    record {
      name = "balance_consistency";
      passed = eqb (length bad) 0;
      severity = Severity.critical;
      detail =
          if eqb (length bad) 0
          then "all pools consistent"
          else join "" (
              show_ℕ (length bad)
              ∷ " pool(s) inconsistent: "
              ∷ join ", " (map (λ p. join "" (p.0 ∷ "=delta " ∷ show_ℤ p.1 ∷ [])) (take 5 bad))
              ∷ []);
      metric_value = length bad;
    }

-- The sums of a transaction: debit, then credit.
abbrev pub TxSums : Type 0
TxSums = ℤ × ℤ

abbrev pub add_entry : LedgerEntry → TxSums → TxSums
add_entry e (debit, credit) = elim e.direction [
  | Direction.debit ↦ (debit +ℤ e.amount_link, credit)
  | Direction.credit ↦ (debit, credit +ℤ e.amount_link)
]

abbrev pub sums_of : String → Dict String TxSums → TxSums
sums_of tx by_tx = elim (lookup tx by_tx) [ none ↦ (pos 0, pos 0) | some s ↦ s ]

-- One round of the loop; entries with no transaction hash are skipped.
unfoldable pub tally_entry : Dict String TxSums → LedgerEntry → Dict String TxSums
tally_entry by_tx e =
    if e.tx_hash == ""
    then by_tx
    else insert e.tx_hash (add_entry e (sums_of e.tx_hash by_tx)) by_tx

unfoldable pub tally_entries : Dict String TxSums → List LedgerEntry → Dict String TxSums
unfolding tally_entry
tally_entries by_tx [] = by_tx
tally_entries by_tx (e ∷ rest) = tally_entries (tally_entry by_tx e) rest

abbrev pub is_violator : TxSums → Bool
is_violator (debit, credit) = not (eqb_ℤ debit credit)

abbrev pub show_violator : String × TxSums → String
show_violator (tx, (debit, credit)) =
    join "" (tx ∷ ": debit=" ∷ show_ℤ debit ∷ "/credit=" ∷ show_ℤ credit ∷ [])

unfoldable pub check_ledger_balanced_per_tx : List LedgerEntry → CheckResult
unfolding tally_entries
check_ledger_balanced_per_tx entries =
    let violators = filter (λ p. is_violator p.1) (tally_entries [] entries) in
    record {
      name = "ledger_balanced_per_tx";
      passed = eqb (length violators) 0;
      severity = Severity.critical;
      detail =
          if eqb (length violators) 0
          then "all txs balanced"
          else str_append "first 10 violators: "
              (join "; " (map show_violator (take 10 violators)));
      metric_value = length violators;
    }
