-- ===== src/Chain.antt =====
-- internal/chain: the contract's ABI, the RPC clients, the reader and the submitter.
pub mod Rpc
pub mod Client
pub mod Abi
pub mod Reader
pub mod Submitter
