-- ===== src/Orchestrator/Found/Crew.antt =====
-- internal/orchestrator/engine.go: `onFound` in the goroutines of several workers. The section under
-- `submittedMu` is one step, and the broadcast behind it another, at any later time; between them the
-- other goroutines may do what they like with the engine and the chain but for the map.
pub mod Once
use hash256_miner.Base.{
  ℕ, zero, suc, ◌+◌, ◌≡◌, Bool, true, false, Option, none, some, List, [], ◌∷◌, Bytes, text_eq,
  Result, ok, if◌then◌else◌,
}
use hash256_miner.Orchestrator.Protocol.{WorkerEvent}
use hash256_miner.Orchestrator.Engine.{Env, Miner, Engine, Sys}
use hash256_miner.Orchestrator.Found.{claim_found}
use hash256_miner.Orchestrator.Found.Once.{key_of}

-- `Picks k xs rest`: `rest` is `xs` without an item `k`.
pub data Picks (k : Bytes) : List Bytes → List Bytes → Type 0 where
  front : {xs : List Bytes} → Picks k (k ∷ xs) xs
  later : {x : Bytes} {xs rest : List Bytes} → Picks k xs rest → Picks k (x ∷ xs) (x ∷ rest)

module _ (env : Env) where
  open env use {fl, net}
  open net use {Address, Key}

  -- `claimed` are the keys in the hands of goroutines that will broadcast, `sent` those they broadcast for.
  pub record Crew : Type 0 where
    pub sys : Sys env
    pub claimed : List Bytes
    pub sent : List Bytes

  pub data CrewStep (c : Crew) : Crew → Type 0 where
    claim_new :
        (acc : Miner Address Key) (ev : WorkerEvent fl.F) {nonce : Bytes}
        → (claim_found env acc ev c.sys).0 ≡ ok (some nonce)
        → CrewStep c (record c {
          sys = (claim_found env acc ev c.sys).1;
          claimed = key_of env acc ev ∷ c.claimed;
        })
    broadcast_one :
        {k : Bytes} {rest : List Bytes}
        → Picks k c.claimed rest
        → CrewStep c (record c { claimed = rest; sent = k ∷ c.sent })
    others :
        (sys : Sys env)
        → sys.engine.submitted ≡ c.sys.engine.submitted
        → CrewStep c (record c { sys = sys })

  -- The states that a crew can reach, from one that holds no claims.
  pub data Reached (s : Sys env) : Crew → Type 0 where
    idle_crew : Reached s (record { sys = s; claimed = []; sent = [] })
    crew_step : {c d : Crew} → Reached s c → CrewStep c d → Reached s d

-- How often a key stands in a list.
pub occurrences : Bytes → List Bytes → ℕ
occurrences q [] = 0
occurrences q (k ∷ keys) = let rest = occurrences q keys in if text_eq k q then suc rest else rest
