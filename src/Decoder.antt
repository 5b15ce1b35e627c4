-- ===== src/Decoder.antt =====
-- decoder/: types, registries and decoding.
pub mod Types
pub mod ContractRegistry
pub mod TraceTree
pub mod Abi
pub mod Results
pub mod ProxyResolver
pub mod EventDecoder
pub mod CalldataDecoder
pub mod TraceDecoder
pub mod AbiRegistry
