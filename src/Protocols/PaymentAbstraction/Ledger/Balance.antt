-- ===== src/Protocols/PaymentAbstraction/Ledger/Balance.antt =====
-- Double entry: what the builder emits for the actions of any events balances.
use mathlib.Core.List.{map-append}
use chainlink_economic_ledge.Prelude.{
  String, List, [], ◌∷◌, ◌++◌, true, ◌&&◌, ◌≡◌, refl, inl, inr, pos, ◌+ℤ◌, eqb_ℤ_iff, leb_ℤ,
  sum_ℤ-append, filter-append, Bool-cases, string_eq,
}
use chainlink_economic_ledge.Protocols.PaymentAbstraction.Semantics.{PaActionKind, PaEconomicAction}
use chainlink_economic_ledge.Protocols.PaymentAbstraction.Ledger.{
  PaLedgerEntry, pa_debits, pa_credits, pa_entries_of_kind, build_pa_ledger_entries,
  verify_pa_double_entry,
}

pa_debits-append :
    (xs ys : List PaLedgerEntry) → pa_debits (xs ++ ys) ≡ pa_debits xs +ℤ pa_debits ys
pa_debits-append xs ys = simp (filter-append, map-append, sum_ℤ-append)

pa_credits-append :
    (xs ys : List PaLedgerEntry) → pa_credits (xs ++ ys) ≡ pa_credits xs +ℤ pa_credits ys
pa_credits-append xs ys = simp (filter-append, map-append, sum_ℤ-append)

-- The rows of several actions.
abbrev pub pa_ledger_of : (String → String) → List PaEconomicAction → List PaLedgerEntry
pa_ledger_of sha256 [] = []
pa_ledger_of sha256 (a ∷ rest) = build_pa_ledger_entries sha256 a ++ pa_ledger_of sha256 rest

module _ (sha256 : String → String) where
  pa_kind_balanced :
      (k : PaActionKind) (a : PaEconomicAction)
      → pa_debits (pa_entries_of_kind sha256 k a) ≡ pa_credits (pa_entries_of_kind sha256 k a)
  unfolding pa_entries_of_kind
  pa_kind_balanced PaActionKind.config_changed a = refl
  pa_kind_balanced _ a = refl

  pa_action_balanced :
      (a : PaEconomicAction)
      → pa_debits (build_pa_ledger_entries sha256 a) ≡ pa_credits (build_pa_ledger_entries sha256 a)
  unfolding build_pa_ledger_entries
  pa_action_balanced a =
      elim (Bool-cases (leb_ℤ a.output_amount (pos 0) && leb_ℤ a.source_amount (pos 0))) [
        | inl idle ↦ rw idle refl
        | inr moved ↦ rw moved (pa_kind_balanced a.kind a)
      ]

  pa_ledger_balanced :
      (actions : List PaEconomicAction)
      → pa_debits (pa_ledger_of sha256 actions) ≡ pa_credits (pa_ledger_of sha256 actions)
  pa_ledger_balanced [] = refl
  pa_ledger_balanced (a ∷ rest) =
      rw (pa_debits-append, pa_credits-append) (cc (pa_action_balanced a, pa_ledger_balanced rest))

  -- The ledger of any actions of the payment abstraction passes its check.
  pub verify_pa_double_entry-ledger :
      (actions : List PaEconomicAction)
      → verify_pa_double_entry (pa_ledger_of sha256 actions) ≡ true
  unfolding verify_pa_double_entry
  verify_pa_double_entry-ledger actions = (eqb_ℤ_iff _ _).1 (pa_ledger_balanced actions)
