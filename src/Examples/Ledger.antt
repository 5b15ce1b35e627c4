-- ===== src/Examples/Ledger.antt =====
-- The staking ledger at concrete actions.
use chainlink_economic_ledge.Prelude.{string_eq, List, [], ◌∷◌, true, ◌≡◌, ◌↔◌, ◌≢◌, String, All}
use chainlink_economic_ledge.Protocols.Staking.Ledger.{
  LedgerEntry, debits, credits, verify_double_entry_per_tx,
}
use chainlink_economic_ledge.Protocols.Staking.Ledger.Balance.{
  ledger_of, verify_double_entry_per_tx-ledger,
}
use chainlink_economic_ledge.Reconciliation.Checks.{check_ledger_balanced_per_tx}
use chainlink_economic_ledge.Reconciliation.Checks.Agreement.{
  of_tx, check_ledger_balanced_per_tx_iff,
}
use chainlink_economic_ledge.Examples.Data.{digest, stake_10, slash_3, moves}

abbrev ledger : List LedgerEntry
ledger = ledger_of digest moves (stake_10 ∷ slash_3 ∷ [])

verify_double_entry_per_tx-ledger_example :
    All (λ c. c.is_balanced ≡ true) (verify_double_entry_per_tx ledger)
verify_double_entry_per_tx-ledger_example =
    verify_double_entry_per_tx-ledger digest moves (stake_10 ∷ slash_3 ∷ [])

check_ledger_balanced_per_tx_iff_example :
    ((check_ledger_balanced_per_tx ledger).passed ≡ true)
    ↔ ((tx : String) → tx ≢ "" → debits (of_tx tx ledger) ≡ credits (of_tx tx ledger))
check_ledger_balanced_per_tx_iff_example = check_ledger_balanced_per_tx_iff ledger
