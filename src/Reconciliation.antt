-- ===== src/Reconciliation.antt =====
-- reconciliation/: token movements, and their reconciliation with actions and balances.
pub mod Movement
pub mod MovementBuilder
pub mod Unify
pub mod Edge
pub mod Subsets
pub mod Matcher
pub mod Rollup
pub mod Transaction
pub mod Partition
pub mod Balances
pub mod Checks
