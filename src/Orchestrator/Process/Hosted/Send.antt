-- ===== src/Orchestrator/Process/Hosted/Send.antt =====
-- internal/orchestrator: where a command goes that the engine sends to a worker it has started.
use hash256_miner.Chain.Rpc.{Rpc}
