-- ===== src/Reconciliation/Matcher/Allocation.antt =====
-- What the edges of one action say: they name the action, settle its amount, and give up only
-- where no few movements of the transaction add up to it.
use mathlib.Core.List.{Sublistᴰ}
use chainlink_economic_ledge.Prelude.{
  ℕ, suc, ◌≤◌, String, none, some, List, [], ◌∷◌, map, Bool, true, false, ◌||◌, ◌≡◌, refl, ap, ◌∙◌,
  ◌⊎◌, inl, inr, ℤ, pos, ◌+ℤ◌, sum_ℤ, ◌<ℤ◌, ltb_ℤ, eqb_ℤ_iff, eqb, pos_part, neg_part, length,
  filter, all, All, All-filter, ◌==◌, string_eq, Bool-cases, Option-cases, arith, int_laws,
}
use chainlink_economic_ledge.Protocols.Staking.Action.{EconomicAction}
use chainlink_economic_ledge.Reconciliation.Movement.{TokenMovement}
use chainlink_economic_ledge.Reconciliation.Edge.{
  Status, ActionMovementMatch, status_eq, is_not_expected,
}
use chainlink_economic_ledge.Reconciliation.Subsets.{find_subset_summing_to, max_size}
use chainlink_economic_ledge.Reconciliation.Subsets.Search.{
  total, length-sublist, IsSmallestSubset, find_subset_summing_to-some, find_subset_summing_to-none,
}
use chainlink_economic_ledge.Reconciliation.Rollup.{has_status}
use chainlink_economic_ledge.Reconciliation.Matcher.{
  is_candidate, has_amount, partial_edges, no_subset_edge, match_partial, match_exact,
  match_candidates, match_action_to_movements,
}

abbrev pub allocated : List ActionMovementMatch → ℤ
allocated edges = sum_ℤ (map (λ e. e.allocated_amount) edges)

-- Every edge is exact or partial.
abbrev pub is_settled : List ActionMovementMatch → Bool
is_settled = all (λ e. e.status == Status.exact || e.status == Status.partial)

-- Where no movement has the target as its amount, no single one sums to it.
single_amount :
    (target : ℤ) {c ms : List TokenMovement}
    → Sublistᴰ c ms
    → length c ≡ 1
    → filter (has_amount target) ms ≡ []
    → ¬ (total c ≡ target)
single_amount target Sublistᴰ.slnil one empty hit = absurd (omega arith)
single_amount target (Sublistᴰ.cons {a = x} s) one empty hit =
    single_amount target s one (ground arith) hit
single_amount target (Sublistᴰ.cons-cons {a = x} {b = y} {l₁ = []} p s) one empty hit =
    let same : x.amount ≡ target =
      omega (int_laws, ap (λ z. pos_part z) hit, ap (λ z. neg_part z) hit) in
    let refused : has_amount target y ≡ false = ground arith in
    cc ((eqb_ℤ_iff y.amount target).1 (rw p at same), refused)
single_amount target (Sublistᴰ.cons-cons {l₁ = z ∷ zs} p s) one empty hit = absurd (omega arith)

-- The edge names the action.
abbrev pub NamesAction : EconomicAction → ActionMovementMatch → Type 0
NamesAction a e = e.action_id ≡ some a.action_id

module _ (sha256 : String → String) (action : EconomicAction) where
  partial_edges-allocated :
      (n i : ℕ) (ms : List TokenMovement)
      → allocated (partial_edges sha256 action n i ms) ≡ total ms
  unfolding partial_edges
  partial_edges-allocated n i [] = refl
  partial_edges-allocated n i (m ∷ ms) =
      ap (λ z. m.amount +ℤ z) (partial_edges-allocated n (suc i) ms)

  partial_edges-status :
      (n i : ℕ) (ms : List TokenMovement)
      → All
          (λ e. (e.status ≡ Status.partial) × NamesAction action e)
          (partial_edges sha256 action n i ms)
  unfolding partial_edges
  partial_edges-status n i [] = tt
  partial_edges-status n i (m ∷ ms) = ((refl, refl), partial_edges-status n (suc i) ms)

  not-unmatched :
      (es : List ActionMovementMatch)
      → All (λ e. (e.status ≡ Status.partial) × NamesAction action e) es
      → has_status es Status.unmatched ≡ false
  not-unmatched [] h = refl
  not-unmatched (e ∷ es) h = ground (arith, not-unmatched es h.1)

  -- Either no subset was found, or the edges are those of the smallest one.
  pub match_partial-cases :
      (candidates : List TokenMovement)
      → ((match_partial sha256 action candidates ≡ no_subset_edge sha256 action candidates ∷ [])
          × (pos 0 <ℤ action.amount_link
              → find_subset_summing_to candidates action.amount_link ≡ none))
        ⊎ ((subset : List TokenMovement) × IsSmallestSubset candidates action.amount_link 2 subset
            × (match_partial sha256 action candidates
                ≡ partial_edges sha256 action (length subset) 0 subset))
  unfolding match_partial
  match_partial-cases candidates = elim (Bool-cases (ltb_ℤ (pos 0) action.amount_link)) [
    | inr low ↦ inl (rw low, λ h. ground arith)
    | inl positive ↦ elim (Option-cases (find_subset_summing_to candidates action.amount_link)) [
      | inl refused ↦ inl (rw positive (rw (refused, match_partial)), λ _. refused)
      | inr (subset, found) ↦
          let (small, _) = find_subset_summing_to-some candidates action.amount_link found in
          inr (subset, small, ground (arith, small.at_least))
    ]
  ]

  no_subset_edge-status :
      (candidates : List TokenMovement)
      → ((no_subset_edge sha256 action candidates).status ≡ Status.unmatched)
        × NamesAction action (no_subset_edge sha256 action candidates)
  unfolding no_subset_edge
  no_subset_edge-status candidates = (refl, refl)

  match_partial-allocated :
      (candidates : List TokenMovement)
      → is_settled (match_partial sha256 action candidates) ≡ true
      → allocated (match_partial sha256 action candidates) ≡ action.amount_link
  match_partial-allocated candidates h = elim (match_partial-cases candidates) [
    | inl (alone, _) ↦ ground (arith, no_subset_edge-status candidates)
    | inr (subset, small, edges) ↦
        rw edges (partial_edges-allocated (length subset) 0 subset ∙ small.exact_sum)
  ]

  match_partial-unmatched :
      (candidates : List TokenMovement)
      → has_status (match_partial sha256 action candidates) Status.unmatched ≡ true
      → pos 0 <ℤ action.amount_link
      → (c : List TokenMovement) → Sublistᴰ c candidates
      → 2 ≤ length c
      → length c ≤ max_size
      → ¬ (total c ≡ action.amount_link)
  match_partial-unmatched candidates h positive c s low high =
      elim (match_partial-cases candidates) [
        | inl (alone, refused) ↦
            find_subset_summing_to-none candidates action.amount_link positive (refused positive) c
              s low high
        | inr (subset, small, edges) ↦ cc (
          h,
          edges,
          not-unmatched (partial_edges sha256 action (length subset) 0 subset)
              (partial_edges-status (length subset) 0 subset),
        )
      ]

  match_candidates-allocated :
      (candidates : List TokenMovement)
      → is_settled (match_candidates sha256 action candidates) ≡ true
      → allocated (match_candidates sha256 action candidates) ≡ action.amount_link
  unfolding match_candidates
  match_candidates-allocated [] h = ground arith
  match_candidates-allocated (m ∷ ms) h =
      exact (filter (has_amount action.amount_link) (m ∷ ms))
        (All-filter (λ m. m.amount ≡ action.amount_link) (has_amount action.amount_link)
          (λ m. (eqb_ℤ_iff m.amount action.amount_link).0) (m ∷ ms))
        h
    where
      exact :
          (hits : List TokenMovement)
          → All (λ m. m.amount ≡ action.amount_link) hits
          → is_settled (match_exact sha256 action (m ∷ ms) hits) ≡ true
          → allocated (match_exact sha256 action (m ∷ ms) hits) ≡ action.amount_link
      exact [] _ h = match_partial-allocated (m ∷ ms) h
      exact (hit ∷ []) e h = rw e.0 (omega int_laws)
      exact (hit ∷ hit' ∷ hits) e h = cc

  -- Where every edge of an action is exact or partial, the edges allocate the action's amount, no
  -- more and no less.
  pub match_action_to_movements-allocated :
      (movements : List TokenMovement)
      → is_settled (match_action_to_movements sha256 action movements) ≡ true
      → allocated (match_action_to_movements sha256 action movements) ≡ action.amount_link
  unfolding match_action_to_movements
  match_action_to_movements-allocated movements h =
      elim (Bool-cases (is_not_expected action.kind)) [
        | inl admin ↦ ground arith
        | inr moved ↦
            rw moved
              (match_candidates-allocated (filter (is_candidate action) movements) (rw moved at h))
      ]

  match_candidates-unmatched :
      (candidates : List TokenMovement)
      → has_status (match_candidates sha256 action candidates) Status.unmatched ≡ true
      → pos 0 <ℤ action.amount_link
      → (c : List TokenMovement) → Sublistᴰ c candidates
      → 1 ≤ length c
      → length c ≤ max_size
      → ¬ (total c ≡ action.amount_link)
  unfolding match_candidates
  match_candidates-unmatched [] h positive c s low high = absurd (omega (arith, length-sublist s))
  match_candidates-unmatched (m ∷ ms) h positive c s low high =
      exact (filter (has_amount action.amount_link) (m ∷ ms)) refl h
    where
      exact :
          (hits : List TokenMovement)
          → filter (has_amount action.amount_link) (m ∷ ms) ≡ hits
          → has_status (match_exact sha256 action (m ∷ ms) hits) Status.unmatched ≡ true
          → ¬ (total c ≡ action.amount_link)
      exact [] e h = elim (Bool-cases (eqb (length c) 1)) [
        | inl one ↦ single_amount action.amount_link s (ground arith) e
        | inr more ↦ match_partial-unmatched (m ∷ ms) h positive c s (ground arith) high
      ]
      exact (hit ∷ []) e h = cc
      exact (hit ∷ hit' ∷ hits) e h = cc

  -- An action with a positive amount is reported unmatched only if LINK was expected to move and
  -- no one to six of the transaction's movements of a positive amount add up to its amount.
  pub match_action_to_movements-unmatched :
      (movements : List TokenMovement)
      → has_status (match_action_to_movements sha256 action movements) Status.unmatched ≡ true
      → pos 0 <ℤ action.amount_link
      → (is_not_expected action.kind ≡ false)
        × ((c : List TokenMovement)
            → Sublistᴰ c (filter (is_candidate action) movements)
            → 1 ≤ length c
            → length c ≤ max_size
            → ¬ (total c ≡ action.amount_link))
  unfolding match_action_to_movements
  match_action_to_movements-unmatched movements h positive =
      elim (Bool-cases (is_not_expected action.kind)) [
        | inl admin ↦ ground arith
        | inr moved ↦ (
          moved,
          match_candidates-unmatched (filter (is_candidate action) movements) (rw moved at h)
              positive,
        )
      ]
