-- ===== src/Reconciliation/Matcher/Shape.antt =====
-- Every action has an edge, every edge of it names the action, and names as its movement only a
-- candidate of which it allocates the whole amount.
use mathlib.Core.List.{Memᴰ, cons-ne-nil}
use chainlink_economic_ledge.Prelude.{
  ℕ, suc, String, none, some, List, [], ◌∷◌, true, ◌≡◌, ◌≢◌, refl, inl, inr, pos, length, filter,
  All, All-imp, All-filter_mem, All-self, All-sublist, ◌≤◌, string_eq, Bool-cases, arith,
}
use chainlink_economic_ledge.Protocols.Staking.Action.{EconomicAction}
use chainlink_economic_ledge.Reconciliation.Movement.{TokenMovement}
use chainlink_economic_ledge.Reconciliation.Edge.{Status, ActionMovementMatch, is_not_expected}
use chainlink_economic_ledge.Reconciliation.Matcher.Allocation.{NamesAction, match_partial-cases}
use chainlink_economic_ledge.Reconciliation.Matcher.{
  is_candidate, has_amount, bare_edge, movement_edge, no_subset_edge, partial_edges, match_partial,
  match_exact, match_candidates, match_action_to_movements,
}

-- What an edge of the action says of movements: nothing, or the whole amount of a candidate.
pub data IsBacked (a : EconomicAction) (movements : List TokenMovement) (e : ActionMovementMatch)
    : Type 0 where
  bare : e.movement_id ≡ none → e.allocated_amount ≡ pos 0 → IsBacked a movements e
  moved :
      (m : TokenMovement)
      → Memᴰ m movements
      → is_candidate a m ≡ true
      → e.movement_id ≡ some m.movement_id
      → e.allocated_amount ≡ m.amount
      → IsBacked a movements e

pub record IsActionEdge (a : EconomicAction) (movements : List TokenMovement)
    (e : ActionMovementMatch) : Type 0 where
  pub names : NamesAction a e
  pub backed : IsBacked a movements e
  pub not_unexpected : e.status ≢ Status.unexpected

module _ (sha256 : String → String) (a : EconomicAction) (movements : List TokenMovement) where
  abbrev IsGood : List ActionMovementMatch → Type 0
  IsGood es = All (IsActionEdge a movements) es × (es ≢ [])

  abbrev Ok : TokenMovement → Type 0
  Ok m = Memᴰ m movements × (is_candidate a m ≡ true)

  bare-IsGood :
      (s : Status) (reason : String)
      → s ≢ Status.unexpected
      → IsGood (bare_edge sha256 a s reason ∷ [])
  unfolding bare_edge
  bare-IsGood s reason ne = (
    (record { names = refl; backed = IsBacked.bare refl refl; not_unexpected = ne }, tt),
    cons-ne-nil _ _,
  )

  moved-IsActionEdge :
      (m : TokenMovement) (s : Status) (i : ℕ) (reason : String)
      → Ok m
      → s ≢ Status.unexpected
      → IsActionEdge a movements (movement_edge sha256 a m s i reason)
  unfolding movement_edge
  moved-IsActionEdge m s i reason ok ne = record {
    names = refl;
    backed = IsBacked.moved m ok.0 ok.1 refl refl;
    not_unexpected = ne;
  }

  partial_edges-good :
      (n i : ℕ) (ms : List TokenMovement)
      → All Ok ms
      → All (IsActionEdge a movements) (partial_edges sha256 a n i ms)
  unfolding partial_edges
  partial_edges-good n i [] h = tt
  partial_edges-good n i (m ∷ ms) h =
      (moved-IsActionEdge m Status.partial i _ h.0 (λ e. cc), partial_edges-good n (suc i) ms h.1)

  partial_edges-ne-nil :
      (n i : ℕ) (ms : List TokenMovement) → 2 ≤ length ms → partial_edges sha256 a n i ms ≢ []
  unfolding partial_edges
  partial_edges-ne-nil n i [] h = absurd (omega arith)
  partial_edges-ne-nil n i (m ∷ ms) h = cons-ne-nil _ _

  match_partial-IsGood :
      (candidates : List TokenMovement)
      → All Ok candidates
      → IsGood (match_partial sha256 a candidates)
  match_partial-IsGood candidates h = elim (match_partial-cases sha256 a candidates) [
    | inl (alone, _) ↦ rw alone (unfold no_subset_edge in bare-IsGood Status.unmatched _ (λ e. cc))
    | inr (subset, small, edges) ↦ rw edges (
      partial_edges-good (length subset) 0 subset (All-sublist Ok small.sublist h),
      partial_edges-ne-nil (length subset) 0 subset small.at_least,
    )
  ]

  match_exact-IsGood :
      (candidates hits : List TokenMovement)
      → All Ok candidates
      → All Ok hits
      → IsGood (match_exact sha256 a candidates hits)
  unfolding match_exact
  match_exact-IsGood candidates [] h k = match_partial-IsGood candidates h
  match_exact-IsGood candidates (m ∷ []) h k =
      ((moved-IsActionEdge m Status.exact 0 _ k.0 (λ e. cc), tt), cons-ne-nil _ _)
  match_exact-IsGood candidates (m ∷ m' ∷ ms) h k =
      ((moved-IsActionEdge m Status.ambiguous 0 _ k.0 (λ e. cc), tt), cons-ne-nil _ _)

  match_candidates-IsGood :
      (candidates : List TokenMovement)
      → All Ok candidates
      → IsGood (match_candidates sha256 a candidates)
  unfolding match_candidates
  match_candidates-IsGood [] h = bare-IsGood Status.unmatched _ (λ e. cc)
  match_candidates-IsGood (m ∷ ms) h =
      match_exact-IsGood (m ∷ ms) (filter (has_amount a.amount_link) (m ∷ ms)) h (
        All-imp (λ x q. q.0) (filter (has_amount a.amount_link) (m ∷ ms))
          (All-filter_mem Ok (has_amount a.amount_link) (m ∷ ms) h))

  -- An action has at least one edge. Each edge names the action and is not unexpected; it names no
  -- movement and allocates zero, or it names a movement of the action's transaction with a positive
  -- amount and allocates that amount.
  pub match_action_to_movements-shape :
      All (IsActionEdge a movements) (match_action_to_movements sha256 a movements)
      × (match_action_to_movements sha256 a movements ≢ [])
  unfolding match_action_to_movements
  match_action_to_movements-shape = elim (Bool-cases (is_not_expected a.kind)) [
    | inl admin ↦ rw admin (bare-IsGood Status.not_expected _ (λ e. cc))
    | inr expected ↦ rw expected (
        match_candidates-IsGood (filter (is_candidate a) movements)
          (All-filter_mem (λ m. Memᴰ m movements) (is_candidate a) movements (All-self movements)))
  ]
