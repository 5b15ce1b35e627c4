-- ===== src/Examples.antt =====
-- Tests of the definitions, and the theorems at concrete inputs.
mod Data
mod Ledger
mod Matching
mod Partitions
mod Ingestion
mod Protocols
mod Movements
mod Traces
mod Analytics
mod Fetching
mod Decoding
mod Rpc
