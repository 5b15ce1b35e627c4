-- ===== src/Reconciliation/Transaction/Coverage.antt =====
-- The edges of a transaction leave out no action and no movement, and its counts are theirs.
use mathlib.Core.List.{Memᴰ}
use chainlink_economic_ledge.Prelude.{
  ℕ, suc, ◌<◌, String, Option, none, some, List, [], ◌∷◌, ◌++◌, Bool, true, false, ◌||◌, ◌≡◌, ◌≢◌,
  ◌↔◌, refl, ap, filter, filter-append, length, length-append, contains, All, All-append, All-imp,
  ◌==◌, string_eq, arith,
}
use text.Mathlib.TextEquality.{eq_iff}
use chainlink_economic_ledge.Prelude.{ℤ}
use chainlink_economic_ledge.Prelude.Dict.{Dict}
use chainlink_economic_ledge.Prelude.Text.{lower}
use chainlink_economic_ledge.Protocols.Staking.Action.{EconomicAction}
use chainlink_economic_ledge.Reconciliation.Movement.{TokenMovement}
use chainlink_economic_ledge.Reconciliation.Edge.{Status, ActionMovementMatch, status_eq}
use chainlink_economic_ledge.Reconciliation.Matcher.{match_action_to_movements}
use chainlink_economic_ledge.Reconciliation.Matcher.Shape.{
  IsActionEdge, match_action_to_movements-shape,
}
use chainlink_economic_ledge.Reconciliation.Rollup.{has_status, rollup_status}
use chainlink_economic_ledge.Reconciliation.Transaction.{
  TxReconciliation, matched_ids, action_edges, unexpected_edges, reconcile_with, match_tx_economics,
}

-- Some edge names the action.
abbrev pub names_action : List ActionMovementMatch → String → Bool
names_action [] i = false
names_action (e ∷ es) i = elim e.action_id [
  | none ↦ names_action es i
  | some j ↦ j == i || names_action es i
]

matched_ids-append :
    (xs ys : List ActionMovementMatch) → matched_ids (xs ++ ys) ≡ matched_ids xs ++ matched_ids ys
matched_ids-append [] ys = refl
matched_ids-append (x ∷ xs) ys = ground (arith, matched_ids-append xs ys)

contains-append :
    (xs ys : List String) (i : String) → contains (xs ++ ys) i ≡ (contains xs i || contains ys i)
contains-append [] ys i = refl
contains-append (x ∷ xs) ys i = ground (arith, contains-append xs ys i)

names_action-append :
    (xs ys : List ActionMovementMatch) (i : String)
    → names_action (xs ++ ys) i ≡ (names_action xs i || names_action ys i)
names_action-append [] ys i = refl
names_action-append (x ∷ xs) ys i = ground (arith, names_action-append xs ys i)

abbrev pub count_status : Status → List ActionMovementMatch → ℕ
count_status s es = length (filter (λ e. e.status == s) es)

-- Every action and every movement of the transaction stands at some edge.
pub record IsCovered (actions : List EconomicAction) (movements : List TokenMovement)
    (r : TxReconciliation) : Type 0 where
  pub every_action : (a : EconomicAction) → Memᴰ a actions → names_action r.edges a.action_id ≡ true
  pub every_movement :
      (m : TokenMovement)
      → Memᴰ m movements
      → lower m.tx_hash ≡ r.tx_hash
      → contains (matched_ids r.edges) m.movement_id ≡ true

module _ (sha256 : String → String) where
  -- A movement of the transaction is matched by an action or gets an edge of its own.
  unexpected_edges-covers :
      (tx : String) (matched : List String) {m : TokenMovement} {ms : List TokenMovement} (i : ℕ)
      → Memᴰ m ms
      → lower m.tx_hash ≡ tx
      → (contains matched m.movement_id
          || contains (matched_ids (unexpected_edges sha256 tx matched i ms)) m.movement_id)
        ≡ true
  unfolding unexpected_edges
  unexpected_edges-covers tx matched {m} i (Memᴰ.head {x = x} {xs = xs} e) h = rw e (
      ground (
        arith,
        eq_iff (lower x.tx_hash) tx,
        eq_iff x.movement_id x.movement_id,
        ap (λ (z : TokenMovement). lower z.tx_hash) e,
      ))
  unexpected_edges-covers tx matched {m} i (Memᴰ.tail {x = x} {xs = xs} mem) h =
      ground (arith, unexpected_edges-covers tx matched (suc i) mem h)

  names_action_self :
      (a : EconomicAction) (ms : List TokenMovement) (es : List ActionMovementMatch)
      → All (IsActionEdge a ms) es
      → es ≢ []
      → names_action es a.action_id ≡ true
  names_action_self a ms [] h ne = absurd (ne refl)
  names_action_self a ms (e ∷ es) h ne = ground (arith, h.0.names, eq_iff a.action_id a.action_id)

  action_edges-covers :
      {a : EconomicAction} {actions : List EconomicAction} (movements : List TokenMovement)
      → Memᴰ a actions
      → names_action (action_edges sha256 actions movements) a.action_id ≡ true
  unfolding action_edges
  action_edges-covers {a} movements (Memᴰ.head {x = x} {xs = xs} e) =
      let (good, some_edge) = match_action_to_movements-shape sha256 x movements in
      rw e (rw (names_action-append, names_action_self x movements _ good some_edge) refl)
  action_edges-covers {a} movements (Memᴰ.tail {x = x} {xs = xs} mem) = ground (
    arith,
    names_action-append (match_action_to_movements sha256 x movements)
        (action_edges sha256 xs movements) a.action_id,
    action_edges-covers movements mem,
  )

  reconcile_with-IsCovered :
      (chain block : ℕ) (tx : String) (actions : List EconomicAction)
      (movements : List TokenMovement)
      → IsCovered actions movements (reconcile_with sha256 chain block tx actions movements)
  unfolding reconcile_with
  reconcile_with-IsCovered chain block tx actions movements =
      let matched = action_edges sha256 actions movements in
      let extra = unexpected_edges sha256 tx (matched_ids matched) 0 movements in
      record {
        every_action = λ a mem.
            rw (names_action-append matched extra a.action_id, action_edges-covers movements mem)
              refl;
        every_movement = λ m mem h.
            rw
              (
                matched_ids-append matched extra,
                contains-append (matched_ids matched) (matched_ids extra) m.movement_id,
              )
              (unexpected_edges-covers tx (matched_ids matched) 0 mem h);
      }

  -- Every action of the call is named by an edge, and so is every movement of its transaction:
  -- the graph of actions and movements leaves nothing out.
  pub match_tx_economics-IsCovered :
      (actions : List EconomicAction) (movements : List TokenMovement)
      (deltas : Option (Dict String ℤ))
      → IsCovered actions movements (match_tx_economics sha256 actions movements deltas)
  unfolding match_tx_economics
  match_tx_economics-IsCovered [] [] deltas = record {
    every_action = λ a mem. elim mem [ ];
    every_movement = λ m mem h. elim mem [ ];
  }
  match_tx_economics-IsCovered (a ∷ actions) movements deltas =
      reconcile_with-IsCovered _ _ _ (a ∷ actions) movements
  match_tx_economics-IsCovered [] (m ∷ movements) deltas =
      reconcile_with-IsCovered _ _ _ [] (m ∷ movements)

  none_unexpected :
      (es : List ActionMovementMatch)
      → All (λ e. e.status ≢ Status.unexpected) es
      → count_status Status.unexpected es ≡ 0
  none_unexpected [] h = refl
  none_unexpected (e ∷ es) h = ground (arith, h.0, none_unexpected es h.1)

  action_edges-expected :
      (actions : List EconomicAction) (movements : List TokenMovement)
      → All (λ e. e.status ≢ Status.unexpected) (action_edges sha256 actions movements)
  unfolding action_edges
  action_edges-expected [] movements = tt
  action_edges-expected (a ∷ actions) movements =
      All-append (λ e. e.status ≢ Status.unexpected) (match_action_to_movements sha256 a movements)
        (action_edges sha256 actions movements)
        (All-imp (λ e g. g.not_unexpected) (match_action_to_movements sha256 a movements)
          (match_action_to_movements-shape sha256 a movements).0)
        (action_edges-expected actions movements)

  count-unexpected_edges :
      (tx : String) (matched : List String) (i : ℕ) (ms : List TokenMovement)
      → count_status Status.unexpected (unexpected_edges sha256 tx matched i ms)
        ≡ length (unexpected_edges sha256 tx matched i ms)
  unfolding unexpected_edges
  count-unexpected_edges tx matched i [] = refl
  count-unexpected_edges tx matched i (m ∷ ms) =
      ground (arith, count-unexpected_edges tx matched (suc i) ms)

  reconcile_with-counts :
      (chain block : ℕ) (tx : String) (actions : List EconomicAction)
      (movements : List TokenMovement)
      → let r = reconcile_with sha256 chain block tx actions movements in
        (r.unexpected_movements ≡ count_status Status.unexpected r.edges)
        × (r.unmatched_actions ≡ count_status Status.unmatched r.edges)
  unfolding reconcile_with
  reconcile_with-counts chain block tx actions movements =
      let matched = action_edges sha256 actions movements in
      let extra = unexpected_edges sha256 tx (matched_ids matched) 0 movements in
      (
        rw (filter-append (λ e. e.status == Status.unexpected) matched extra) (
            omega (
              arith,
              length-append (filter (λ e. e.status == Status.unexpected) matched)
                  (filter (λ e. e.status == Status.unexpected) extra),
              none_unexpected matched (action_edges-expected actions movements),
              count-unexpected_edges tx (matched_ids matched) 0 movements,
            )),
        refl,
      )

has_status_iff-count :
    (s : Status) (es : List ActionMovementMatch)
    → (has_status es s ≡ true → 0 < count_status s es)
      × (has_status es s ≡ false → count_status s es ≡ 0)
has_status_iff-count s [] = (λ h. cc, λ h. refl)
has_status_iff-count s (e ∷ es) =
    (λ h. ground (arith, has_status_iff-count s es), λ h. ground (arith, has_status_iff-count s es))

rollup_status_unmatched :
    (es : List ActionMovementMatch)
    → (rollup_status es ≡ Status.unmatched) ↔ (0 < count_status Status.unmatched es)
unfolding rollup_status
rollup_status_unmatched es = (
  λ h. ground (arith, has_status_iff-count Status.unmatched es),
  λ h. ground (arith, has_status_iff-count Status.unmatched es),
)

-- The counts are those of the edges by their status, the overall status is the roll-up of the
-- edges, and it is unmatched exactly when some action is counted as unmatched.
pub match_tx_economics-counts :
    (sha256 : String → String) (actions : List EconomicAction) (movements : List TokenMovement)
    (deltas : Option (Dict String ℤ))
    → let r = match_tx_economics sha256 actions movements deltas in
      (r.unexpected_movements ≡ count_status Status.unexpected r.edges)
      × (r.unmatched_actions ≡ count_status Status.unmatched r.edges)
      × (r.overall_status ≡ rollup_status r.edges)
      × ((r.overall_status ≡ Status.unmatched) ↔ (0 < r.unmatched_actions))
unfolding match_tx_economics
match_tx_economics-counts sha256 [] [] deltas =
    (refl, refl, unfold rollup_status in refl, (λ h. cc, λ h. absurd (omega arith)))
match_tx_economics-counts sha256 (a ∷ actions) movements deltas =
    let (unexpected, unmatched) =
      reconcile_with-counts sha256 a.chain_id a.block_number (lower a.tx_hash) (a ∷ actions)
        movements in
    (unexpected, unmatched, refl, rollup_status_unmatched _)
match_tx_economics-counts sha256 [] (m ∷ movements) deltas =
    let (unexpected, unmatched) =
      reconcile_with-counts sha256 m.chain_id m.block_number (lower m.tx_hash) [] (m ∷ movements) in
    (unexpected, unmatched, refl, rollup_status_unmatched _)
