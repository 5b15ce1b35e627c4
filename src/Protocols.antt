-- ===== src/Protocols.antt =====
-- protocols/: what the decoded events of each protocol mean, and its double-entry ledger.
pub mod Staking
pub mod PaymentAbstraction
