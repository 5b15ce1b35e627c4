-- ===== src/Protocols/Staking/Ledger.antt =====
-- protocols/staking_v02/ledger_builder.py: double-entry rows of an action, and their check.
-- `sha256` is the hex digest of a text. The proofs are in the modules below.
pub mod Balance
use Prim.Native.String.{◌++◌}
use chainlink_economic_ledge.Prelude.{
  ℕ, String, Option, none, some, List, [], ◌∷◌, map, Bool, ℤ, pos, ◌+ℤ◌, ◌-ℤ◌, eqb_ℤ, sum_ℤ, filter,
  ◌==◌, string_eq, if◌then◌else◌,
}
use chainlink_economic_ledge.Prelude.Text.{show_ℕ}
use chainlink_economic_ledge.Prelude.Dict.{values, group_by}
use chainlink_economic_ledge.Protocols.Staking.Action.{ActionKind, EconomicAction}
use chainlink_economic_ledge.Reconciliation.Movement.{TokenMovement}

pub data Direction : Type 0 where
  debit credit : Direction

pub record LedgerEntry : Type 0 where
  pub entry_id : String
  pub action_id : String
  pub entry_index : ℕ
  pub account : String
  pub direction : Direction
  pub amount_link : ℤ
  pub chain_id : ℕ
  pub block_number : ℕ
  pub tx_hash : String

pub record DoubleEntryCheck : Type 0 where
  pub tx_hash : String
  pub is_balanced : Bool
  pub debit_total : ℤ
  pub credit_total : ℤ
  pub delta : ℤ

module _ (sha256 : String → String) where
  unfoldable pub compute_ledger_entry_id : String → ℕ → String
  compute_ledger_entry_id action_id entry_index =
      sha256 ("ledger_entry|" ++ action_id ++ "|" ++ show_ℕ entry_index)

  unfoldable pub make_entry : EconomicAction → ℕ → String → Direction → ℤ → LedgerEntry
  make_entry action entry_index account direction amount = record {
    entry_id = compute_ledger_entry_id action.action_id entry_index;
    action_id = action.action_id;
    entry_index = entry_index;
    account = account;
    direction = direction;
    amount_link = amount;
    chain_id = action.chain_id;
    block_number = action.block_number;
    tx_hash = action.tx_hash;
  }

  -- Each branch of the builder emits entry 0, a debit, and entry 1, a credit.
  unfoldable pub entry_pair : EconomicAction → String → String → List LedgerEntry
  unfolding make_entry
  entry_pair action debited credited =
      make_entry action 0 debited Direction.debit action.amount_link
      ∷ make_entry action 1 credited Direction.credit action.amount_link
      ∷ []

-- `action.wallet or 'unknown'`
unfoldable pub wallet_account : Option String → String
wallet_account none = "wallet:unknown"
wallet_account (some w) = "wallet:" ++ (if w == "" then "unknown" else w)

module _ (sha256 : String → String) where
  unfoldable pub entries_of_kind : ActionKind → EconomicAction → List LedgerEntry
  unfolding entry_pair wallet_account
  entries_of_kind ActionKind.stake a =
      entry_pair sha256 a (wallet_account a.wallet) (a.pool_role ++ ":" ++ a.contract_address)
  entries_of_kind ActionKind.unstake_finalized a =
      entry_pair sha256 a (a.pool_role ++ ":" ++ a.contract_address) (wallet_account a.wallet)
  entries_of_kind ActionKind.reward_claimed a =
      entry_pair sha256 a (a.pool_role ++ ":rewards") (wallet_account a.wallet)
  entries_of_kind ActionKind.reward_accrued a =
      entry_pair sha256 a "reward_funder" (a.pool_role ++ ":rewards")
  entries_of_kind ActionKind.slashed a =
      entry_pair sha256 a (a.pool_role ++ ":" ++ a.contract_address)
        (a.pool_role ++ ":forfeiture_sink")
  entries_of_kind ActionKind.migrated_from_v01 a =
      if a.pool_role == "staking_pool_v01"
      then entry_pair sha256 a ("staking_pool_v01:" ++ a.contract_address) "migration_proxy"
      else entry_pair sha256 a "migration_proxy" (a.pool_role ++ ":" ++ a.contract_address)
  entries_of_kind ActionKind.unstake_requested a = []
  entries_of_kind ActionKind.pool_config_changed a = []

  -- The movements are accepted and not used.
  unfoldable pub build_ledger_entries : EconomicAction → List TokenMovement → List LedgerEntry
  unfolding entries_of_kind
  build_ledger_entries action movements =
      if eqb_ℤ action.amount_link (pos 0) then [] else entries_of_kind action.kind action

abbrev pub is_debit : LedgerEntry → Bool
is_debit e = elim e.direction [ Direction.debit ↦ Bool.true | Direction.credit ↦ Bool.false ]

abbrev pub is_credit : LedgerEntry → Bool
is_credit e = elim e.direction [ Direction.debit ↦ Bool.false | Direction.credit ↦ Bool.true ]

-- `sum(e.amount_link for e in entries if e.direction == …)`
abbrev pub debits : List LedgerEntry → ℤ
debits entries = sum_ℤ (map (λ e. e.amount_link) (filter is_debit entries))

abbrev pub credits : List LedgerEntry → ℤ
credits entries = sum_ℤ (map (λ e. e.amount_link) (filter is_credit entries))

unfoldable pub verify_double_entry : List LedgerEntry → DoubleEntryCheck
verify_double_entry [] = record {
  tx_hash = "";
  is_balanced = Bool.true;
  debit_total = pos 0;
  credit_total = pos 0;
  delta = pos 0;
}
verify_double_entry (first ∷ rest) =
    let debit_total = debits (first ∷ rest) in
    let credit_total = credits (first ∷ rest) in
    let delta = debit_total -ℤ credit_total in
    record {
      tx_hash = first.tx_hash;
      is_balanced = eqb_ℤ delta (pos 0);
      debit_total = debit_total;
      credit_total = credit_total;
      delta = delta;
    }

unfoldable pub verify_double_entry_per_tx : List LedgerEntry → List DoubleEntryCheck
unfolding verify_double_entry
verify_double_entry_per_tx entries =
    map verify_double_entry (values (group_by (λ e. e.tx_hash) entries))
