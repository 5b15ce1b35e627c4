-- ===== src/Reconciliation/Balances.antt =====
-- reconciliation/balance_reconciler.py: net movements of a pool against its on-chain balance. The
-- balance provider is a parameter: token, holder and block give a balance.
pub mod Ranges
use chainlink_economic_ledge.Prelude.{
  ℕ, ◌+◌, String, List, [], ◌∷◌, Bool, ◌||◌, ℤ, pos, ◌+ℤ◌, ◌-ℤ◌, eqb_ℤ, ltb, ◌==◌, string_eq,
  if◌then◌else◌,
}
use chainlink_economic_ledge.Prelude.Text.{lower}
use chainlink_economic_ledge.Reconciliation.Movement.{TokenMovement}

-- `client.get_token_balance`
abbrev pub BalanceProvider : Type 0
BalanceProvider = String → String → ℤ → ℤ

pub record BalanceVerification : Type 0 where
  pub chain_id : ℕ
  pub pool_address : String
  pub block_number : ℕ
  pub expected_delta : ℤ
  pub observed_balance_delta : ℤ
  pub is_consistent : Bool
  pub diff : ℤ

pub record PoolReconciliation : Type 0 where
  pub chain_id : ℕ
  pub pool_address : String
  pub from_block : ℕ
  pub to_block : ℕ
  pub net_movements : ℤ
  pub start_balance : ℤ
  pub end_balance : ℤ
  pub is_consistent : Bool
  pub diff : ℤ

-- The body of the loop for a movement inside the range.
abbrev pub apply_movement : String → ℤ → TokenMovement → ℤ
apply_movement target delta m =
    let received = (if lower m.to_addr == target then delta +ℤ m.amount else delta) in
    if lower m.from_addr == target then received -ℤ m.amount else received

-- `for m in movements`, with `delta` as accumulator.
unfoldable pub delta_from : String → ℕ → ℕ → ℤ → List TokenMovement → ℤ
delta_from target from_block to_block delta [] = delta
delta_from target from_block to_block delta (m ∷ rest) =
    delta_from target from_block to_block
      (if ltb m.block_number from_block || ltb to_block m.block_number
        then delta
        else apply_movement target delta m)
      rest

unfoldable pub compute_balance_delta : List TokenMovement → String → ℕ → ℕ → ℤ
unfolding delta_from
compute_balance_delta movements address from_block to_block =
    delta_from (lower address) from_block to_block (pos 0) movements

unfoldable pub verify_pool_balance :
    BalanceProvider → String → String → ℕ → ℤ → ℕ → BalanceVerification
verify_pool_balance client token_address pool_address block_number expected_delta prior_block =
    let prior_balance = client token_address pool_address (pos prior_block) in
    let current_balance = client token_address pool_address (pos block_number) in
    let observed = current_balance -ℤ prior_balance in
    let diff = observed -ℤ expected_delta in
    record {
      chain_id = 1;
      pool_address = lower pool_address;
      block_number = block_number;
      expected_delta = expected_delta;
      observed_balance_delta = observed;
      is_consistent = eqb_ℤ diff (pos 0);
      diff = diff;
    }

unfoldable pub reconcile_pool_movement_vs_balance :
    BalanceProvider → String → String → List TokenMovement → ℕ → ℕ → PoolReconciliation
reconcile_pool_movement_vs_balance client token_address pool_address movements from_block to_block =
    let pool_lower = lower pool_address in
    let net_movements = compute_balance_delta movements pool_lower from_block to_block in
    let start_balance = client token_address pool_lower (pos from_block -ℤ pos 1) in
    let end_balance = client token_address pool_lower (pos to_block) in
    let diff = end_balance -ℤ start_balance -ℤ net_movements in
    record {
      chain_id = 1;
      pool_address = pool_lower;
      from_block = from_block;
      to_block = to_block;
      net_movements = net_movements;
      start_balance = start_balance;
      end_balance = end_balance;
      is_consistent = eqb_ℤ diff (pos 0);
      diff = diff;
    }
