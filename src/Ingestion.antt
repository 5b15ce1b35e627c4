-- ===== src/Ingestion.antt =====
-- ingestion/: progress, reorganisations, finality, and what the node answers.
pub mod Checkpoint
pub mod Reorg
pub mod Finality
pub mod LogFetcher
pub mod RpcClient
pub mod Fetchers
pub mod BqClient
