-- ===== src/Reconciliation/Rollup/Worst.antt =====
-- The roll-up is the worst status present.
use chainlink_economic_ledge.Prelude.{
  ℕ, ◌≤◌, List, [], ◌∷◌, ◌++◌, true, ◌||◌, ◌≡◌, refl, arith, if◌then◌else◌, leb,
}
use chainlink_economic_ledge.Reconciliation.Edge.{Status, ActionMovementMatch, status_eq}
use chainlink_economic_ledge.Reconciliation.Rollup.{has_status, rollup_status}

-- The place of a status, the worst first.
abbrev pub severity : Status → ℕ
severity Status.unmatched = 0
severity Status.unexpected = 1
severity Status.ambiguous = 2
severity Status.partial = 3
severity Status.not_expected = 4
severity Status.exact = 5

abbrev pub worse : Status → Status → Status
worse s t = if leb (severity s) (severity t) then s else t

has_status-append :
    (xs ys : List ActionMovementMatch) (s : Status)
    → has_status (xs ++ ys) s ≡ (has_status xs s || has_status ys s)
has_status-append [] ys s = refl
has_status-append (x ∷ xs) ys s = ground (arith, has_status-append xs ys s)

-- No status that stands before the roll-up's is present.
pub rollup_status-worst :
    (edges : List ActionMovementMatch) (s : Status)
    → has_status edges s ≡ true
    → severity (rollup_status edges) ≤ severity s
unfolding rollup_status
rollup_status-worst edges s h = ground arith

-- The roll-up's status is that of some edge, where there is one.
pub rollup_status-present :
    (e : ActionMovementMatch) (edges : List ActionMovementMatch)
    → has_status (e ∷ edges) (rollup_status (e ∷ edges)) ≡ true
unfolding rollup_status
rollup_status-present e edges = ground arith

-- The roll-up of two sets of edges together is the worse of their two.
pub rollup_status-append :
    (xs ys : List ActionMovementMatch)
    → rollup_status (xs ++ ys) ≡ worse (rollup_status xs) (rollup_status ys)
unfolding rollup_status
rollup_status-append xs ys = ground (
  arith,
  has_status-append xs ys Status.unmatched,
  has_status-append xs ys Status.unexpected,
  has_status-append xs ys Status.ambiguous,
  has_status-append xs ys Status.partial,
  has_status-append xs ys Status.not_expected,
  has_status-append xs ys Status.exact,
)
