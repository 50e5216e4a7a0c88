-- ===== src/Examples.antt =====
-- The theorems at concrete configurations, keys, nodes and workers.
pub mod World
pub mod Chain
pub mod Engine
pub mod Goroutines
pub mod Processes
pub mod Wallet
pub mod Settings
pub mod CommandLine
pub mod Mining
pub mod Loud
pub mod Desk
pub mod Cli
