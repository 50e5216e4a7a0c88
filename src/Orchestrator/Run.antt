-- ===== src/Orchestrator/Run.antt =====
-- internal/orchestrator/engine.go: `Run`. The wakes of its loop before the context is done are a list;
-- a wake of the statistics ticker only writes a log line.
pub mod Ends
pub mod Unpaid
use hash256_miner.Base.{
  ℕ, Bool, false, ◌+◌, ◌-◌, ◌*◌, ◌%◌, ◌^◌, ◌&&◌, ltb, if◌then◌else◌, ℤ, pos, negsuc, crash, Option,
  none, List, [], ◌∷◌, Bytes, Result, ok, err, panic, Exec, pure, wrapping, deferring, ◌>>=◌, ◌>>◌,
}
use hash256_miner.Config.{Config}
use hash256_miner.Chain.Reader.{Reader}
use hash256_miner.Chain.Submitter.{Submitter}
use hash256_miner.Wallet.Manager.{Account, Manager}
use hash256_miner.Orchestrator.Engine.{Env, Miner, Engine, Act, engine, current_epoch, poll_state}
use hash256_miner.Orchestrator.Loop.{poll_tick, spawn_workers, stop_all_workers}

pub data Tick : Type 0 where
  stats polling : Tick

-- The accounts of the manager, told apart by their places.
unfoldable pub miners_from :
    {Address Key : Type 0} → ℕ → List (Account Address Key) → List (Miner Address Key)
miners_from i [] = []
miners_from i (a ∷ rest) = record { ptr = i; account = a } ∷ miners_from (i + 1) rest

-- `time.Duration(e.Cfg.Mining.PollIntervalMs) * time.Millisecond`, an int64 as its bit pattern.
unfoldable pub poll_nanoseconds : ℤ → ℕ
poll_nanoseconds (pos n) = (n * 1000000) % 2 ^ 64
poll_nanoseconds (negsuc n) = (2 ^ 64 - ((n + 1) * 1000000) % 2 ^ 64) % 2 ^ 64

-- The durations that `NewTicker` takes.
unfoldable pub is_interval : ℤ → Bool
unfolding poll_nanoseconds
is_interval ms = ltb 0 (poll_nanoseconds ms) && ltb (poll_nanoseconds ms) (2 ^ 63)

module _ (env : Env) where
  open env use {fl, net, lib, host}
  open net use {Ctx, Address, Key}

  -- `NewEngine`
  unfoldable pub new_engine :
      Config fl.F → Reader net lib → Submitter fl net lib → Manager Address Key → Bytes → Engine env
  new_engine cfg reader submitter wallets core_bin = record {
    cfg = cfg;
    reader = reader;
    submitter = submitter;
    wallets = wallets;
    core_bin = core_bin;
    workers = [];
    challenge = none;
    difficulty = none;
    epoch = none;
    gpu_available = false;
    gpu_device_list = [];
    submitted = [];
    hashrate_acc = 0;
    hashes_acc = 0;
  }

  -- `return ctx.Err()`
  pub cancelled_run : Ctx → Act env (Unit {0})
  cancelled_run ctx s = (err (host.ctx_err ctx s.chain.world), s)

  pub run_ticks : Ctx → Option ℕ → List Tick → Act env (Unit {0})
  unfolding cancelled_run
  run_ticks ctx last [] = cancelled_run ctx
  run_ticks ctx last (stats ∷ ticks) = run_ticks ctx last ticks
  run_ticks ctx last (polling ∷ ticks) = poll_tick env ctx last >>= λ now. run_ticks ctx now ticks

  -- The tickers and the loop; `NewTicker` panics if the interval is not positive.
  unfoldable pub run_loop : Ctx → List Tick → Act env (Unit {0})
  run_loop ctx ticks = do
    e ← engine env
    if is_interval e.cfg.mining.poll_interval_ms
        then run_ticks ctx (current_epoch env e) ticks
        else crash "non-positive interval for NewTicker"

  -- `Run`, on the accounts with their pointers.
  unfoldable pub run : Ctx → List (Miner Address Key) → List Tick → Act env (Unit {0})
  run ctx miners ticks = do
    wrapping "initial state: %w" (poll_state env ctx)
    wrapping "spawn workers: %w" (spawn_workers env ctx miners)
    deferring (stop_all_workers env) (run_loop ctx ticks)
