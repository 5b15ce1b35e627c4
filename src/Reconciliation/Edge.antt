-- ===== src/Reconciliation/Edge.antt =====
-- reconciliation/economic_reconciler.py: statuses, methods and the edges between actions and
-- movements. `sha256` is the hex digest of a text.
use Prim.Native.String.{◌++◌}
use chainlink_economic_ledge.Prelude.{
  ℕ, String, Option, none, some, Bool, true, false, ℤ, Eq, ◌≡◌, ◌↔◌, arith,
}
use chainlink_economic_ledge.Prelude.Text.{show_ℕ}
use chainlink_economic_ledge.Protocols.Staking.Action.{ActionKind}
use chainlink_economic_ledge.Reconciliation.Movement.{Source, TokenMovement}

pub data Status : Type 0 where
  exact partial unmatched not_expected unexpected ambiguous : Status

pub data Method : Type 0 where
  event_log trace balance_inferred manual_rule : Method

-- The `.value` of each status.
unfoldable pub status_value : Status → String
status_value Status.exact = "exact"
status_value Status.partial = "partial"
status_value Status.unmatched = "unmatched"
status_value Status.not_expected = "not_expected"
status_value Status.unexpected = "unexpected"
status_value Status.ambiguous = "ambiguous"

abbrev pub status_beq : Status → Status → Bool
status_beq Status.exact t = elim t [ exact ↦ true | _ ↦ false ]
status_beq Status.partial t = elim t [ partial ↦ true | _ ↦ false ]
status_beq Status.unmatched t = elim t [ unmatched ↦ true | _ ↦ false ]
status_beq Status.not_expected t = elim t [ not_expected ↦ true | _ ↦ false ]
status_beq Status.unexpected t = elim t [ unexpected ↦ true | _ ↦ false ]
status_beq Status.ambiguous t = elim t [ ambiguous ↦ true | _ ↦ false ]

pub status_beq_iff : (s t : Status) → (status_beq s t ≡ true) ↔ (s ≡ t)
status_beq_iff Status.exact t = (λ h. ground arith, λ h. ground arith)
status_beq_iff s t = (λ h. ground arith, λ h. ground arith)

instance abbrev pub status_eq : Eq Status
status_eq = record { beq = status_beq; beq_iff = status_beq_iff }

-- `kind.value in NOT_EXPECTED_KINDS`
unfoldable pub is_not_expected : ActionKind → Bool
is_not_expected ActionKind.unstake_requested = true
is_not_expected ActionKind.reward_accrued = true
is_not_expected ActionKind.pool_config_changed = true
is_not_expected _ = false

pub record ActionMovementMatch : Type 0 where
  pub edge_id : String
  pub action_id : Option String
  pub movement_id : Option String
  pub allocated_amount : ℤ
  pub status : Status
  pub method : Option Method
  pub reason : String

-- `x or ''`
abbrev pub or_empty : Option String → String
or_empty none = ""
or_empty (some s) = s

unfoldable pub compute_edge_id :
    (String → String) → Option String → Option String → Status → ℕ → String
unfolding status_value
compute_edge_id sha256 action_id movement_id status idx = sha256 (
    "edge|"
    ++ or_empty action_id
    ++ "|"
    ++ or_empty movement_id
    ++ "|"
    ++ status_value status
    ++ "|"
    ++ show_ℕ idx)

unfoldable pub method_for_movement : TokenMovement → Method
method_for_movement m = elim m.source_priority [
  | Source.log ↦ Method.event_log
  | Source.trace ↦ Method.trace
]
