-- ===== src/Reconciliation/Rollup.antt =====
-- reconciliation/economic_reconciler.py, `_rollup_status`: the worst status of a set of edges.
pub mod Worst
use chainlink_economic_ledge.Prelude.{List, [], ◌∷◌, Bool, any, ◌==◌, find?}
use chainlink_economic_ledge.Prelude.{get_some}
use chainlink_economic_ledge.Reconciliation.Edge.{Status, ActionMovementMatch, status_eq}

abbrev pub status_priority : List Status
status_priority =
    Status.unmatched ∷ Status.unexpected ∷ Status.ambiguous ∷ Status.partial ∷ Status.not_expected
    ∷ Status.exact ∷ []

-- `s in {e.status for e in edges}`
abbrev pub has_status : List ActionMovementMatch → Status → Bool
has_status edges s = any (λ e. e.status == s) edges

unfoldable pub rollup_status : List ActionMovementMatch → Status
rollup_status edges = get_some Status.exact (find? (has_status edges) status_priority)
