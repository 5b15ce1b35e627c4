-- ===== src/Protocols/PaymentAbstraction/Ledger.antt =====
-- protocols/payment_abstraction/ledger_builder.py: double-entry rows of an action, and their check.
-- `sha256` is the hex digest of a text.
pub mod Balance
use Prim.Native.String.{◌++◌}
use chainlink_economic_ledge.Prelude.{
  ℕ, String, Option, none, some, List, [], ◌∷◌, map, Bool, true, false, ◌&&◌, ℤ, pos, eqb_ℤ, leb_ℤ,
  sum_ℤ, filter, ◌==◌, string_eq, if◌then◌else◌,
}
use chainlink_economic_ledge.Prelude.Text.{show_ℕ}
use chainlink_economic_ledge.Protocols.PaymentAbstraction.Semantics.{PaActionKind, PaEconomicAction}

pub data PaDirection : Type 0 where
  debit credit : PaDirection

pub record PaLedgerEntry : Type 0 where
  pub entry_id : String
  pub action_id : String
  pub entry_index : ℕ
  pub account : String
  pub direction : PaDirection
  pub amount_link : ℤ
  pub chain_id : ℕ
  pub block_number : ℕ
  pub tx_hash : String

-- `x or default`
abbrev pub or_default : String → Option String → String
or_default default none = default
or_default default (some s) = if s == "" then default else s

module _ (sha256 : String → String) where
  unfoldable pub compute_pa_ledger_entry_id : String → ℕ → String
  compute_pa_ledger_entry_id action_id entry_index =
      sha256 ("pa_ledger_entry|" ++ action_id ++ "|" ++ show_ℕ entry_index)

  unfoldable pub entry : PaEconomicAction → ℕ → String → PaDirection → ℤ → PaLedgerEntry
  unfolding compute_pa_ledger_entry_id
  entry action idx account direction amount = record {
    entry_id = compute_pa_ledger_entry_id action.action_id idx;
    action_id = action.action_id;
    entry_index = idx;
    account = account;
    direction = direction;
    amount_link = amount;
    chain_id = action.chain_id;
    block_number = action.block_number;
    tx_hash = action.tx_hash;
  }

  -- Each branch of the builder emits entry 0, a debit, and entry 1, a credit.
  unfoldable pub pa_pair : PaEconomicAction → String → String → ℤ → List PaLedgerEntry
  unfolding entry
  pa_pair action debited credited amount =
      entry action 0 debited PaDirection.debit amount
      ∷ entry action 1 credited PaDirection.credit amount
      ∷ []

  unfoldable pub pa_entries_of_kind : PaActionKind → PaEconomicAction → List PaLedgerEntry
  unfolding pa_pair
  pa_entries_of_kind PaActionKind.config_changed a = []
  pa_entries_of_kind PaActionKind.fee_received a =
      pa_pair a ("service_contract:" ++ or_default "unknown" a.counterparty)
        (a.contract_role ++ ":" ++ a.contract_address) a.source_amount
  pa_entries_of_kind PaActionKind.swap_executed a =
      pa_pair a (a.contract_role ++ ":" ++ a.contract_address)
        ("pa_reserves:" ++ or_default "link" a.output_token) a.output_amount
  pa_entries_of_kind PaActionKind.reserves_deposit a =
      pa_pair a ("upstream:" ++ or_default "unknown" a.counterparty)
        (a.contract_role ++ ":" ++ a.contract_address)
        (if eqb_ℤ a.output_amount (pos 0) then a.source_amount else a.output_amount)
  pa_entries_of_kind PaActionKind.service_fee_forwarded a =
      pa_pair a (a.contract_role ++ ":" ++ a.contract_address)
        ("forwarded_to:" ++ or_default "unknown" a.counterparty) a.source_amount

  unfoldable pub build_pa_ledger_entries : PaEconomicAction → List PaLedgerEntry
  unfolding pa_entries_of_kind
  build_pa_ledger_entries action =
      if leb_ℤ action.output_amount (pos 0) && leb_ℤ action.source_amount (pos 0)
      then []
      else pa_entries_of_kind action.kind action

abbrev pub is_pa_debit : PaLedgerEntry → Bool
is_pa_debit e = elim e.direction [ PaDirection.debit ↦ true | PaDirection.credit ↦ false ]

abbrev pub is_pa_credit : PaLedgerEntry → Bool
is_pa_credit e = elim e.direction [ PaDirection.debit ↦ false | PaDirection.credit ↦ true ]

abbrev pub pa_debits : List PaLedgerEntry → ℤ
pa_debits entries = sum_ℤ (map (λ e. e.amount_link) (filter is_pa_debit entries))

abbrev pub pa_credits : List PaLedgerEntry → ℤ
pa_credits entries = sum_ℤ (map (λ e. e.amount_link) (filter is_pa_credit entries))

unfoldable pub verify_pa_double_entry : List PaLedgerEntry → Bool
verify_pa_double_entry entries = eqb_ℤ (pa_debits entries) (pa_credits entries)
