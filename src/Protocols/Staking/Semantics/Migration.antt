-- ===== src/Protocols/Staking/Semantics/Migration.antt =====
-- A migration moves its amount from the old pool to the new one through one account.
use Prim.Native.String.{◌++◌ as str_append}
use chainlink_economic_ledge.Prelude.{
  String, some, List, [], ◌∷◌, map, false, ◌≡◌, ◌≢◌, refl, ℤ, pos, ◌==◌, string_eq, eqb_ℤ,
  eqb_ℤ_iff, arith,
}
use chainlink_economic_ledge.Prelude.Dict.{lookup}
use chainlink_economic_ledge.Decoder.Types.{DecodedEvent}
use chainlink_economic_ledge.Decoder.ContractRegistry.{ContractRegistry, role}
use chainlink_economic_ledge.Protocols.Staking.Action.{ActionKind, EconomicAction}
use chainlink_economic_ledge.Protocols.Staking.Ledger.{
  Direction, LedgerEntry, make_entry, entry_pair, entries_of_kind, build_ledger_entries,
}
use chainlink_economic_ledge.Protocols.Staking.Ledger.Balance.{ledger_of}
use chainlink_economic_ledge.Protocols.Staking.Semantics.{
  event_name_to_kind, extract_amount_link, role_or, base_action, v01_action,
  classify_event_as_action,
}

-- The account, the side and the amount of an entry.
pub record Leg : Type 0 where
  pub account : String
  pub direction : Direction
  pub amount : ℤ

abbrev pub leg : LedgerEntry → Leg
leg e = record { account = e.account; direction = e.direction; amount = e.amount_link }

abbrev pub debit : String → ℤ → Leg
debit account amount = record { account = account; direction = Direction.debit; amount = amount }

abbrev pub credit : String → ℤ → Leg
credit account amount = record { account = account; direction = Direction.credit; amount = amount }

module _ (sha256 : String → String) (decoded : DecodedEvent) (registry : ContractRegistry) where
  -- The event of a migration of a nonzero amount, at a contract whose role is neither unknown nor
  -- that of the old pool, becomes two actions whose ledger debits the old pool, passes the amount
  -- through the proxy account, which is credited and debited by it, and credits the new pool.
  pub classify_event_as_action-migration :
      (n : ℤ)
      → lookup decoded.event_name event_name_to_kind ≡ some ActionKind.migrated_from_v01
      → extract_amount_link decoded ≡ some n
      → n ≢ pos 0
      → let r = role_or "unknown" (role registry decoded.contract_address) in
        r ≢ "unknown"
        → r ≢ "staking_pool_v01"
        → (actions : List EconomicAction) × (classify_event_as_action sha256 decoded registry
            ≡ some actions)
          × (map leg (ledger_of sha256 [] actions)
              ≡ debit (str_append "staking_pool_v01:" decoded.contract_address) n
                ∷ credit "migration_proxy" n
                ∷ debit "migration_proxy" n
                ∷ credit (str_append r (str_append ":" decoded.contract_address)) n
                ∷ [])
  unfolding classify_event_as_action base_action v01_action build_ledger_entries entries_of_kind
      entry_pair make_entry
  classify_event_as_action-migration n named amount nonzero known new =
      let r = role_or "unknown" (role registry decoded.contract_address) in
      let not_unknown : (r == "unknown") ≡ false = ground (arith, string_eq.beq_iff r "unknown") in
      let not_old : (r == "staking_pool_v01") ≡ false =
        ground (arith, string_eq.beq_iff r "staking_pool_v01") in
      let some_amount : eqb_ℤ n (pos 0) ≡ false = ground (arith, eqb_ℤ_iff n (pos 0)) in
      let base = base_action sha256 decoded r ActionKind.migrated_from_v01 n in
      (
        v01_action sha256 decoded base ∷ base ∷ [],
        rw (not_unknown, named, amount) refl,
        rw (some_amount, not_old) refl,
      )
