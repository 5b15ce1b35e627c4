-- ===== src/Protocols/Staking.antt =====
-- protocols/staking_v02/: actions of the staking protocol and their ledger.
pub mod Action
pub mod Ledger
pub mod Semantics
