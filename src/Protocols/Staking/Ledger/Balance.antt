-- ===== src/Protocols/Staking/Ledger/Balance.antt =====
-- Double entry: what the builder emits balances, for one action and for each transaction.
use chainlink_economic_ledge.Prelude.{
  String, List, [], ◌∷◌, ◌++◌, Bool, true, false, ◌≡◌, ◌↔◌, refl, ℤ, pos, ◌+ℤ◌, eqb_ℤ, sum_ℤ-append,
  int_laws, filter, filter-append, All, All-map, ◌==◌, string_eq, if◌then◌else◌, arith, Bool-cases,
  inl, inr,
}
use mathlib.Core.List.{map-append}
use chainlink_economic_ledge.Prelude.Dict.{values, group_by, All-group_by}
use chainlink_economic_ledge.Protocols.Staking.Action.{ActionKind, EconomicAction}
use chainlink_economic_ledge.Protocols.Staking.Ledger.{
  LedgerEntry, debits, credits, entries_of_kind, build_ledger_entries, verify_double_entry,
  verify_double_entry_per_tx,
}
use chainlink_economic_ledge.Reconciliation.Movement.{TokenMovement}

pub debits-append : (xs ys : List LedgerEntry) → debits (xs ++ ys) ≡ debits xs +ℤ debits ys
debits-append xs ys = simp (filter-append, map-append, sum_ℤ-append)

pub credits-append : (xs ys : List LedgerEntry) → credits (xs ++ ys) ≡ credits xs +ℤ credits ys
credits-append xs ys = simp (filter-append, map-append, sum_ℤ-append)

-- The kinds that move LINK between two accounts of the ledger.
abbrev pub is_booked : ActionKind → Bool
is_booked ActionKind.unstake_requested = false
is_booked ActionKind.pool_config_changed = false
is_booked ActionKind.stake = true
is_booked ActionKind.unstake_finalized = true
is_booked ActionKind.reward_claimed = true
is_booked ActionKind.reward_accrued = true
is_booked ActionKind.slashed = true
is_booked ActionKind.migrated_from_v01 = true

abbrev pub booked_amount : EconomicAction → ℤ
booked_amount a = if is_booked a.kind then a.amount_link else pos 0

module _ (sha256 : String → String) where
  entries-totals :
      (k : ActionKind) (a : EconomicAction)
      → let booked = (if is_booked k then a.amount_link else pos 0) in
        (debits (entries_of_kind sha256 k a) ≡ booked)
        × (credits (entries_of_kind sha256 k a) ≡ booked)
  unfolding entries_of_kind
  entries-totals ActionKind.unstake_requested a = (refl, refl)
  entries-totals ActionKind.pool_config_changed a = (refl, refl)
  entries-totals ActionKind.migrated_from_v01 a =
      elim (Bool-cases (a.pool_role == "staking_pool_v01")) [
        | inl h ↦ rw h (omega int_laws, omega int_laws)
        | inr h ↦ rw h (omega int_laws, omega int_laws)
      ]
  entries-totals _ a = (omega int_laws, omega int_laws)

  -- Debits and credits of one action are both the amount booked for its kind, which is zero for
  -- the kinds that move no LINK.
  pub build_ledger_entries-totals :
      (a : EconomicAction) (ms : List TokenMovement)
      → (debits (build_ledger_entries sha256 a ms) ≡ booked_amount a)
        × (credits (build_ledger_entries sha256 a ms) ≡ booked_amount a)
  unfolding build_ledger_entries
  build_ledger_entries-totals a ms = elim (Bool-cases (eqb_ℤ a.amount_link (pos 0))) [
    | inl zero_amount ↦ rw zero_amount (ground arith)
    | inr moved ↦ rw moved (entries-totals a.kind a)
  ]

  -- The entries of an action stand under its transaction.
  filter-entries :
      (t : String) (k : ActionKind) (a : EconomicAction)
      → filter (λ e. e.tx_hash == t) (entries_of_kind sha256 k a)
        ≡ (if a.tx_hash == t then entries_of_kind sha256 k a else [])
  unfolding entries_of_kind
  filter-entries t ActionKind.unstake_requested a = ground arith
  filter-entries t _ a = ground arith

  filter-build :
      (t : String) (a : EconomicAction) (ms : List TokenMovement)
      → filter (λ e. e.tx_hash == t) (build_ledger_entries sha256 a ms)
        ≡ (if a.tx_hash == t then build_ledger_entries sha256 a ms else [])
  unfolding build_ledger_entries
  filter-build t a ms = ground (arith, filter-entries t a.kind a)

  -- The ledger of a run: the entries of all its actions.
  abbrev pub ledger_of : List TokenMovement → List EconomicAction → List LedgerEntry
  ledger_of ms [] = []
  ledger_of ms (a ∷ rest) = build_ledger_entries sha256 a ms ++ ledger_of ms rest

  -- One action's share of a group.
  share_totals :
      (t : String) (a : EconomicAction) (ms : List TokenMovement)
      → let part = filter (λ e. e.tx_hash == t) (build_ledger_entries sha256 a ms) in
        debits part ≡ credits part
  share_totals t a ms = elim (Bool-cases (a.tx_hash == t)) [
    | inl same ↦
        rw (filter-build t a ms, same)
          (cc ((build_ledger_entries-totals a ms).0, (build_ledger_entries-totals a ms).1))
    | inr other ↦ rw (filter-build t a ms, other) refl
  ]

  tx_balanced :
      (t : String) (ms : List TokenMovement) (actions : List EconomicAction)
      → let group = filter (λ e. e.tx_hash == t) (ledger_of ms actions) in
        debits group ≡ credits group
  tx_balanced t ms [] = refl
  tx_balanced t ms (a ∷ rest) =
      let part = build_ledger_entries sha256 a ms in
      rw (filter-append (λ e. e.tx_hash == t) part (ledger_of ms rest))
        (rw (debits-append, credits-append) (cc (share_totals t a ms, tx_balanced t ms rest)))

-- The check passes exactly when debits and credits agree.
pub verify_double_entry_iff :
    (entries : List LedgerEntry)
    → ((verify_double_entry entries).is_balanced ≡ true) ↔ (debits entries ≡ credits entries)
unfolding verify_double_entry
verify_double_entry_iff [] = (λ h. refl, λ h. refl)
verify_double_entry_iff (e ∷ es) = (λ h. grind int_laws, λ h. grind int_laws)

module _ (sha256 : String → String) where
  -- Every transaction of the ledger that the builder makes of any actions passes the check.
  pub verify_double_entry_per_tx-ledger :
      (ms : List TokenMovement) (actions : List EconomicAction)
      → All (λ c. c.is_balanced ≡ true) (verify_double_entry_per_tx (ledger_of sha256 ms actions))
  unfolding verify_double_entry_per_tx
  verify_double_entry_per_tx-ledger ms actions =
      let ledger = ledger_of sha256 ms actions in
      All-map (λ c. c.is_balanced ≡ true) verify_double_entry
        (values (group_by (λ e. e.tx_hash) ledger))
        (All-group_by (λ g. (verify_double_entry g).is_balanced ≡ true) (λ e. e.tx_hash) ledger
          (λ t. (verify_double_entry_iff _).1 (tx_balanced sha256 t ms actions))
          ((verify_double_entry_iff []).1 refl))
