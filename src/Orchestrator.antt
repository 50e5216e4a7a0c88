-- ===== src/Orchestrator.antt =====
-- internal/orchestrator: the worker protocol, the worker's event channel and the engine.
pub mod Codec
pub mod Protocol
pub mod Events
pub mod Engine
pub mod Found
pub mod Loop
pub mod Run
pub mod Process
pub mod Stats
pub mod Spawn
