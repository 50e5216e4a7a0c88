-- ===== src/Orchestrator/Engine/Seen.antt =====
-- internal/orchestrator/engine.go: an observer of the commands that the workers are sent.
use hash256_miner.Base.{ℕ, ◌≡◌, List, [], ◌∷◌, ◌++◌}
use hash256_miner.Orchestrator.Protocol.{Command}
use hash256_miner.Orchestrator.Engine.{Env}
use hash256_miner.Orchestrator.Engine.Unseen.{UnseenViews, UnseenWorkers}

-- A worker and what it is sent.
abbrev pub Sent : Type 0
Sent = ℕ × Command

module _ (env : Env) where
  open env use {net, host}
  open net use {W}

  -- The observer sees the commands in their order, and none of the calls of the contract.
  pub record SeesCommands (seen : W → List Sent) : Type 0 where
    pub views : UnseenViews env seen
    pub send :
        (worker : ℕ) (cmd : Command) (w : W)
        → seen (host.send worker cmd w).1 ≡ seen w ++ ((worker, cmd) ∷ [])

  -- It sees neither the random source nor the start of a worker and its events.
  pub record SeesStarts (seen : W → List Sent) : Type 0 where
    pub commands : SeesCommands seen
    pub workers : UnseenWorkers env seen
