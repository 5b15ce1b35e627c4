-- ===== src/Reconciliation/Checks/Agreement.antt =====
-- The ledger check agrees with the builder's own double-entry check, and the duplicate check with
-- distinctness.
use chainlink_economic_ledge.Prelude.{
  String, none, some, List, [], ◌∷◌, Bool, true, false, ◌≡◌, ◌↔◌, ◌≢◌, refl, sym, ◌∙◌, pos, ◌+ℤ◌,
  eqb_ℤ_iff, int_laws, eqb_iff, length, filter, All, ◌==◌, string_eq, if◌then◌else◌, arith, inl,
  inr, Bool-cases, Option-cases,
}
use text.Mathlib.TextEquality.{eq_iff}
use chainlink_economic_ledge.Prelude.Dict.{
  Dict, lookup, values, lookup-insert, IsDistinct, insert-IsDistinct,
}
use chainlink_economic_ledge.Prelude.Dict.Values.{
  length-filter_items, All-values_of_found, found-of_All-values,
}
use chainlink_economic_ledge.Protocols.Staking.Ledger.{LedgerEntry, debits, credits}
use chainlink_economic_ledge.Reconciliation.Checks.{
  TxSums, add_entry, sums_of, tally_entry, tally_entries, is_violator, check_ledger_balanced_per_tx,
}

-- The entries of a transaction.
abbrev pub of_tx : String → List LedgerEntry → List LedgerEntry
of_tx tx = filter (λ e. e.tx_hash == tx)

sums_of-tally_entry :
    (tx : String) (by_tx : Dict String TxSums) (e : LedgerEntry)
    → tx ≢ ""
    → sums_of tx (tally_entry by_tx e)
      ≡ (if e.tx_hash == tx then add_entry e (sums_of tx by_tx) else sums_of tx by_tx)
unfolding tally_entry
sums_of-tally_entry tx by_tx e ne = ground (
  arith,
  lookup-insert e.tx_hash tx (add_entry e (sums_of e.tx_hash by_tx)) by_tx,
  eq_iff e.tx_hash tx,
  eq_iff e.tx_hash "",
  eq_iff tx "",
)

add_entry-sums :
    (e : LedgerEntry) (s : TxSums) (rest : List LedgerEntry)
    → ((add_entry e s).0 +ℤ debits rest ≡ s.0 +ℤ debits (e ∷ rest))
      × ((add_entry e s).1 +ℤ credits rest ≡ s.1 +ℤ credits (e ∷ rest))
add_entry-sums e s rest = (grind int_laws, grind int_laws)

tally_entries-sums :
    (tx : String) (by_tx : Dict String TxSums) (es : List LedgerEntry)
    → tx ≢ ""
    → sums_of tx (tally_entries by_tx es) ≡ (
      (sums_of tx by_tx).0 +ℤ debits (of_tx tx es),
      (sums_of tx by_tx).1 +ℤ credits (of_tx tx es),
    )
unfolding tally_entries
tally_entries-sums tx by_tx [] ne =
    let s = sums_of tx by_tx in
    let debit : s.0 ≡ s.0 +ℤ pos 0 = omega int_laws in
    let credit : s.1 ≡ s.1 +ℤ pos 0 = omega int_laws in λ i. (debit i, credit i)
tally_entries-sums tx by_tx (e ∷ es) ne =
    rw (tally_entries-sums tx (tally_entry by_tx e) es ne, sums_of-tally_entry tx by_tx e ne)
      (split (e.tx_hash == tx) e (sums_of tx by_tx) (of_tx tx es))
  where
    split :
        (here : Bool) (e : LedgerEntry) (s : TxSums) (rest : List LedgerEntry)
        → let t = (if here then add_entry e s else s) in
          let es' = (if here then e ∷ rest else rest) in
          ◌≡◌ {A = TxSums}
            (t.0 +ℤ debits rest, t.1 +ℤ credits rest)
            (s.0 +ℤ debits es', s.1 +ℤ credits es')
    split true e s rest = let (debit, credit) = add_entry-sums e s rest in λ i. (debit i, credit i)
    split false e s rest = refl

-- No entry without a transaction hash is tallied.
tally_entries_empty :
    (by_tx : Dict String TxSums) (es : List LedgerEntry)
    → lookup "" by_tx ≡ none
    → lookup "" (tally_entries by_tx es) ≡ none
unfolding tally_entries
tally_entries_empty by_tx [] h = h
tally_entries_empty by_tx (e ∷ es) h = tally_entries_empty (tally_entry by_tx e) es (
    ground (
      arith,
      lookup-insert e.tx_hash "" (add_entry e (sums_of e.tx_hash by_tx)) by_tx,
      eq_iff e.tx_hash "",
    ))

tally_entries-IsDistinct :
    (by_tx : Dict String TxSums) (es : List LedgerEntry)
    → IsDistinct by_tx
    → IsDistinct (tally_entries by_tx es)
unfolding tally_entries
tally_entries-IsDistinct by_tx [] h = h
tally_entries-IsDistinct by_tx (e ∷ es) h =
    tally_entries-IsDistinct (tally_entry by_tx e) es (elim (Bool-cases (e.tx_hash == "")) [
      | inl skipped ↦ rw skipped h
      | inr kept ↦
          rw kept (insert-IsDistinct e.tx_hash (add_entry e (sums_of e.tx_hash by_tx)) by_tx h)
    ])

none_kept :
    (ss : List TxSums) → (length (filter is_violator ss) ≡ 0) ↔ All (λ s. is_violator s ≡ false) ss
none_kept [] = (λ h. tt, λ h. refl)
none_kept (s ∷ ss) = (
  λ h. (ground arith, (none_kept ss).0 (ground arith)),
  λ h. ground (arith, (none_kept ss).1 h.1),
)

violator_iff : (s : TxSums) → (is_violator s ≡ false) ↔ (s.0 ≡ s.1)
violator_iff s = (λ h. ground arith, λ h. ground (arith, (eqb_ℤ_iff s.0 s.1).1 h))

-- The sums of a transaction, from an empty tally.
sums_of-ledger :
    (tx : String) (es : List LedgerEntry)
    → tx ≢ ""
    → ((sums_of tx (tally_entries [] es)).0 ≡ debits (of_tx tx es))
      × ((sums_of tx (tally_entries [] es)).1 ≡ credits (of_tx tx es))
sums_of-ledger tx es ne = rw (tally_entries-sums tx [] es ne) (omega int_laws, omega int_laws)

-- The check passes exactly when the debits of each transaction with a hash equal its credits.
pub check_ledger_balanced_per_tx_iff :
    (entries : List LedgerEntry)
    → ((check_ledger_balanced_per_tx entries).passed ≡ true)
      ↔ ((tx : String) → tx ≢ "" → debits (of_tx tx entries) ≡ credits (of_tx tx entries))
unfolding check_ledger_balanced_per_tx
check_ledger_balanced_per_tx_iff entries = (forward, backward)
  where
    tally : Dict String TxSums
    tally = tally_entries [] entries

    clean :
        ((tx : String) → tx ≢ "" → debits (of_tx tx entries) ≡ credits (of_tx tx entries))
        → (tx : String) (s : TxSums) → lookup tx tally ≡ some s
        → is_violator s ≡ false
    clean h tx s found = elim (Bool-cases (tx == "")) [
      | inl empty ↦
          let same : tx ≡ "" = (eq_iff tx "").0 empty in
          cc (tally_entries_empty [] entries refl, rw same at found)
      | inr named ↦
          let ne : tx ≢ "" = λ e. cc ((eq_iff tx "").1 e, named) in
          let sums = sums_of-ledger tx entries ne in
          let at : sums_of tx tally ≡ s = rw (found, sums_of) in
          (violator_iff s).1 (rw (← at) (cc (sums.0, sums.1, h tx ne)))
    ]

    forward :
        (check_ledger_balanced_per_tx entries).passed ≡ true
        → (tx : String) → tx ≢ ""
        → debits (of_tx tx entries) ≡ credits (of_tx tx entries)
    forward h tx ne =
        let clean = (none_kept (values tally)).0 (
          sym (length-filter_items is_violator tally)
          ∙ (eqb_iff (length (filter (λ p. is_violator p.1) tally)) 0).0 h) in
        let equal : (sums_of tx tally).0 ≡ (sums_of tx tally).1 =
          elim (Option-cases (lookup tx tally)) [
            | inl absent ↦ rw (absent, sums_of)
            | inr (s, found) ↦
                rw (found, sums_of)
                  ((violator_iff s).0
                    (found-of_All-values (λ s. is_violator s ≡ false) tally tx s clean found))
          ] in
        cc ((sums_of-ledger tx entries ne).0, (sums_of-ledger tx entries ne).1, equal)

    backward :
        ((tx : String) → tx ≢ "" → debits (of_tx tx entries) ≡ credits (of_tx tx entries))
        → (check_ledger_balanced_per_tx entries).passed ≡ true
    backward h = (eqb_iff (length (filter (λ p. is_violator p.1) tally)) 0).1 (
        length-filter_items is_violator tally
        ∙ (none_kept (values tally)).1 (
            All-values_of_found (λ s. is_violator s ≡ false) tally
              (tally_entries-IsDistinct [] entries tt) (clean h)))
