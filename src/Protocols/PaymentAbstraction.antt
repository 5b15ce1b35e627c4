-- ===== src/Protocols/PaymentAbstraction.antt =====
-- protocols/payment_abstraction/: conversions of fees into LINK.
pub mod Semantics
pub mod Ledger
pub mod ReservesResolver
