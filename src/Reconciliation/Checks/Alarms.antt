-- ===== src/Reconciliation/Checks/Alarms.antt =====
-- When the duplicate check and the unmatched check raise an alarm.
use chainlink_economic_ledge.Prelude.{
  AreDistinct, ℕ, ◌<◌, String, none, List, [], ◌∷◌, map, true, false, ◌||◌, ◌≡◌, ◌↔◌, ◌≢◌, refl,
  eqb_iff, ltb, ltb→lt, ◌⊎◌, length, contains, All, All-map, All-of, ◌==◌, string_eq, arith, inl,
  inr, Bool-cases,
}
use text.Mathlib.TextEquality.{eq_iff}
use chainlink_economic_ledge.Prelude.Dict.{Dict, lookup, or_nil, keys}
use chainlink_economic_ledge.Protocols.Staking.Action.{EconomicAction}
use chainlink_economic_ledge.Reconciliation.Movement.{TokenMovement}
use chainlink_economic_ledge.Reconciliation.Edge.{Status}
use chainlink_economic_ledge.Reconciliation.Transaction.{TxReconciliation, match_tx_economics}
use chainlink_economic_ledge.Reconciliation.Transaction.Coverage.{match_tx_economics-counts}
use chainlink_economic_ledge.Reconciliation.Partition.{all_tx_hashes, reconcile_partition}
use chainlink_economic_ledge.Reconciliation.Checks.{
  duplicates, check_no_duplicate_event_ids, sum_unmatched, check_no_unmatched_economic_actions,
}

-- A text that no item equals, seen from both sides.
absent_sym :
    (x : String) (xs : List String) → (contains xs x ≡ false) ↔ All (λ y. (x == y) ≡ false) xs
absent_sym x [] = (λ h. tt, λ h. refl)
absent_sym x (y ∷ ys) = (
  λ h. (ground (arith, eq_iff x y, eq_iff y x), (absent_sym x ys).0 (ground arith)),
  λ h. ground (arith, eq_iff x y, eq_iff y x, (absent_sym x ys).1 h.1),
)

both :
    (x : String) (seen xs : List String)
    → All (λ y. (x == y || contains seen y) ≡ false) xs
      ↔ (All (λ y. (x == y) ≡ false) xs × All (λ y. contains seen y ≡ false) xs)
both x seen [] = (λ h. (tt, tt), λ h. tt)
both x seen (y ∷ ys) = (
  λ h. let (l, r) = (both x seen ys).0 h.1 in ((ground arith, l), (ground arith, r)),
  λ h. (ground arith, (both x seen ys).1 (h.0.1, h.1.1)),
)

duplicates_none :
    (seen xs : List String)
    → (length (duplicates seen xs) ≡ 0) ↔ (All (λ y. contains seen y ≡ false) xs × AreDistinct xs)
unfolding duplicates
duplicates_none seen [] = (λ h. (tt, tt), λ h. refl)
duplicates_none seen (x ∷ xs) =
    let ih = duplicates_none (x ∷ seen) xs in
    (
      λ h.
          let (fresh, distinct) = ih.0 (ground arith) in
          let (apart, unseen) = (both x seen xs).0 fresh in
          ((ground arith, unseen), ((absent_sym x xs).1 apart, distinct)),
      λ h.
          let fresh = (both x seen xs).1 ((absent_sym x xs).0 h.1.0, h.0.1) in
          ground (arith, ih.1 (fresh, h.1.1)),
    )

-- The duplicate check passes exactly when no event id stands twice.
pub check_no_duplicate_event_ids_iff :
    (ids : List String) → ((check_no_duplicate_event_ids ids).passed ≡ true) ↔ AreDistinct ids
unfolding check_no_duplicate_event_ids
check_no_duplicate_event_ids_iff ids = (
  λ h. ((duplicates_none [] ids).0 ((eqb_iff _ 0).0 h)).1,
  λ h.
      (eqb_iff _ 0).1
        ((duplicates_none [] ids).1 (All-of (λ y. contains [] y ≡ false) (λ y. refl) ids, h)),
)

sum_unmatched_zero :
    (rs : List TxReconciliation)
    → All (λ r. (r.overall_status ≡ Status.unmatched) ↔ (0 < r.unmatched_actions)) rs
    → (sum_unmatched rs ≡ 0) ↔ All (λ r. r.overall_status ≢ Status.unmatched) rs
sum_unmatched_zero [] h = (λ e. tt, λ e. refl)
sum_unmatched_zero (r ∷ rs) h =
    let rest = (sum_unmatched_zero rs h.1) in
    (
      λ e. (λ s. absurd (omega (arith, h.0.0 s, e)), rest.0 (omega arith)),
      λ e. no_actions (rest.1 e.1) (Bool-cases (ltb 0 r.unmatched_actions)) e,
    )
  where
    no_actions :
        sum_unmatched rs ≡ 0
        → ((ltb 0 r.unmatched_actions ≡ true) ⊎ (ltb 0 r.unmatched_actions ≡ false))
        → All (λ r. r.overall_status ≢ Status.unmatched) (r ∷ rs)
        → sum_unmatched (r ∷ rs) ≡ 0
    no_actions ih (inl some_left) e = absurd (e.0 (h.0.1 (ltb→lt 0 r.unmatched_actions some_left)))
    no_actions ih (inr none_left) e = ground arith

-- The check of a partition's report passes exactly when no transaction is unmatched overall.
pub check_no_unmatched_iff :
    (sha256 : String → String) (chain_id from_block to_block : ℕ)
    (actions_by_tx : Dict String (List EconomicAction))
    (movements_by_tx : Dict String (List TokenMovement))
    → let report =
        reconcile_partition sha256 chain_id from_block to_block actions_by_tx movements_by_tx in
      ((check_no_unmatched_economic_actions report).passed ≡ true)
      ↔ All (λ r. r.overall_status ≢ Status.unmatched) report.tx_recons
unfolding check_no_unmatched_economic_actions reconcile_partition
check_no_unmatched_iff sha256 chain_id from_block to_block actions_by_tx movements_by_tx =
    let hashes = all_tx_hashes (keys actions_by_tx) (keys movements_by_tx) in
    let f = λ (h : String).
      match_tx_economics sha256 (or_nil (lookup h actions_by_tx))
        (or_nil (lookup h movements_by_tx)) none in
    let agree =
      All-map (λ r. (r.overall_status ≡ Status.unmatched) ↔ (0 < r.unmatched_actions)) f hashes
        (All-of _
          (λ h.
            (match_tx_economics-counts sha256 (or_nil (lookup h actions_by_tx))
              (or_nil (lookup h movements_by_tx)) none).3)
          hashes) in
    let zero_iff = sum_unmatched_zero (map f hashes) agree in
    (λ h. zero_iff.0 ((eqb_iff _ 0).0 h), λ h. (eqb_iff _ 0).1 (zero_iff.1 h))
