-- ===== src/Lib.antt =====
-- A verification library for the Chainlink economic ledger: the pipeline that turns the logs and
-- traces of staking transactions into economic actions, token movements and a double-entry
-- ledger, reconciles actions with movements, and checks the pools' balances.
--
-- The parts, and where they are modelled:
--
-- - Decoder: Types has the records of decoder/types.py that the parts exchange, ContractRegistry
--   models decoder/contract_registry.py (its theorems in Phases and Lookups), TraceTree models
--   the flattening and addressing of call trees in decoder/trace_tree.py. Abi and AbiRegistry
--   model decoder/abi_registry.py (Agreement with the contracts), EventDecoder, CalldataDecoder
--   and TraceDecoder the modules of those names in decoder/, with the results of Results;
--   TraceDecoder has `decode_trace_calls` itself and `extract_erc20_transfer_calls` in
--   Extraction. ProxyResolver models decoder/proxy_resolver.py, and TraceTree/Serialized the text
--   of the trace addresses.
-- - Ingestion: Checkpoint models the class of ingestion/checkpoint.py, with the entries of its
--   file as part of the state (Restart has the steps of a process and its restarts, Progress the
--   cursors and the replay queues), Reorg models ingestion/reorg_handler.py, Finality models
--   ingestion/finality.py, LogFetcher the two loops of ingestion/rpc/log_fetcher.py, RpcClient
--   the client in ingestion/rpc/client.py (its traces in CallTracer), Fetchers the block,
--   receipt, transaction, trace and balance fetchers beside it, and Checkpoint/Dag the functions
--   of ingestion/checkpoint.py for a single DAG. BqClient models the parameters and the cost
--   estimate of ingestion/bq/bq_client.py.
-- - Protocols/Staking: Action and Semantics model protocols/staking_v02/semantics.py, from an
--   event to its actions, and Ledger models the double-entry ledger of
--   protocols/staking_v02/ledger_builder.py. Protocols/PaymentAbstraction does the same for
--   protocols/payment_abstraction/semantics.py and ledger_builder.py beside it, and
--   ReservesResolver models reserves_resolver.py there.
-- - Reconciliation: Movement, MovementBuilder and Unify model reconciliation/movement_builder.py
--   (the union of movements in Unify/Sources, Evidence, Buckets, Union and Origin). Edge,
--   Subsets, Matcher, Rollup, Transaction and Partition model
--   reconciliation/economic_reconciler.py, from the edges of an action
--   (`match_action_to_movements`) over a transaction (`match_tx_economics`) to a partition
--   (`reconcile_partition`). Balances models reconciliation/balance_reconciler.py and Checks
--   models reconciliation/checks.py.
-- - Analytics: ApyRealized, FeeAttribution and RewardDistribution model the modules of
--   analytics/.
-- - Lineage: RunMetadata models lineage/run_metadata.py. Storage: Manifest models
--   storage/manifest.py.
-- - Prelude: lists, integers, dictionaries that keep their insertion order, sorting and text.
-- - Examples: the theorems at concrete inputs.
--
-- An action and the movements of its transaction meet in the matcher, whose edges the transaction
-- adds up; the partition counts the transactions; the checks read the partition's report, the
-- ledger and the balances.
--
-- Names are those of the source without a leading underscore. Where the source has one long
-- function, the model has one definition for each of its loops and branches, composed in the same
-- order.
--
-- Conventions: amounts are unbounded integers as in Python; block numbers, log indexes and the
-- components of a trace address are naturals; texts are ASCII, which is what `lower` reads. The
-- SHA-256 hex digest is a parameter, as are the Keccak digest, the ABI codec, the node and the
-- on-chain balance. A call that raises returns `none`. A float that is a quotient is the pair of
-- its numerator and denominator. The loops are structural recursion, but those of LogFetcher,
-- which have fuel for one window at each block of the range and, in the adaptive fetch, one
-- failure for each block of the first window; the theorems there say that it is enough; the
-- batches of receipts, with fuel for one hash each. The subset search stops at six movements as
-- in the source.
--
-- Not modelled: database clients, the writing of tables and reports, the orchestration, the SQL
-- models and the command-line scripts, which hold no logic of the ledger; the two checks that
-- compare a float with a threshold; the reconstruction of call trees from rows. Each part not
-- modelled is a source of input or a reader of output of those that are.
pub mod Analytics
pub mod Decoder
pub mod Examples
pub mod Ingestion
pub mod Lineage
pub mod Prelude
pub mod Protocols
pub mod Reconciliation
pub mod Storage
