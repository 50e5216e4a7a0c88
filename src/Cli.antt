-- ===== src/Cli.antt =====
-- internal/cli: the commands, from the configuration to the engine, the wallet setup, and the command tree.
pub mod Prompt
pub mod Machine
pub mod Mine
pub mod Setup
pub mod Balance
pub mod Command
pub mod Root
pub mod Signals
