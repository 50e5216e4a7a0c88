-- ===== src/Orchestrator/Loop.antt =====
-- internal/orchestrator/engine.go: the loops around the engine's steps. A `select` or a channel that wakes
-- a loop is a sequence of its wakes; log lines are left out.
pub mod Invariant
pub mod Stops
pub mod Ledger
pub mod Rotates
pub mod Unpaid
pub mod Jobs
pub mod Starts
pub mod Payments
pub mod Crewed
use hash256_miner.Base.{
  ℕ, ◌+◌, ◌%◌, ◌^◌, Bool, true, false, Option, none, some, List, [], ◌∷◌, ◌++◌, Bytes, codes,
  text_eq, Err, errorf, pure, fail, handle, wrapping, ◌>>=◌, ◌>>◌, not, ◌==◌, if◌then◌else◌,
}
use hash256_miner.Chain.Rpc.{Receipt}
use hash256_miner.Chain.Client.Calls.{transaction_receipt}
use hash256_miner.Wallet.Manager.{Account}
use hash256_miner.Orchestrator.Protocol.{WorkerMode, GpuDevice, WorkerEvent}
use hash256_miner.Orchestrator.Engine.{
  Env, Miner, WorkerSlot, Engine, Act, on_chain, on_world, engine, store, current_epoch, poll_state,
  resolve_mode, start_job, retarget_all,
}
use hash256_miner.Orchestrator.Found.{on_found}

-- What wakes the loop of `watchTx`.
pub data Wake : Type 0 where
  cancelled ticked : Wake

pub data WatchEnd : Type 0 where
  mined : ℕ → WatchEnd
  reverted : ℕ → WatchEnd
  timeout : WatchEnd
  stopped : WatchEnd

-- `ne != nil && lastEpoch != nil && ne.Cmp(lastEpoch) != 0`
pub is_rotated : Option ℕ → Option ℕ → Bool
is_rotated (some now) (some last) = not (now == last)
is_rotated _ _ = false

module _ (env : Env) where
  open env use {fl, net, lib, host}
  open fl use {F, to_uint64}
  open net use {Ctx, Address, Key, Hash}

  -- `case <-pollTicker.C` of `Run`: the epoch that is last afterwards.
  pub poll_tick : Ctx → Option ℕ → Act env (Option ℕ)
  poll_tick ctx last =
      handle (poll_state env ctx)
        (λ _. do
          e ← engine env
          let now = current_epoch env e
          if is_rotated now last then retarget_all env else pure tt
          pure now)
        (λ _. pure last)

  -- `updateWorkerStats` on the slots: the first slot of the account.
  pub record_stats : ℕ → ℕ → ℕ → ℕ → List (WorkerSlot Address Key) → List (WorkerSlot Address Key)
  record_stats acc rate hashes elapsed [] = []
  record_stats acc rate hashes elapsed (slot ∷ slots) =
      let rest = record_stats acc rate hashes elapsed slots in
      if slot.miner.ptr == acc
      then record slot { last_hashrate = rate; last_hashes = hashes; last_elapsed_ms = elapsed }
        ∷ slots
      else slot ∷ rest

  pub on_progress : Miner Address Key → WorkerEvent F → Act env (Unit {0})
  on_progress acc ev = do
    e ← engine env
    store env (record e {
      hashrate_acc = to_uint64 ev.hashrate;
      hashes_acc = ev.hashes;
      workers = record_stats acc.ptr (to_uint64 ev.hashrate) ev.hashes ev.elapsed_ms e.workers;
    })

  -- One round of `handleWorkerEvents`; an error of `onFound` is logged.
  pub handle_event : Ctx → Miner Address Key → ℕ → WorkerEvent F → Act env (Unit {0})
  handle_event ctx acc w ev =
      if text_eq ev.event (codes "progress")
      then on_progress acc ev
      else if text_eq ev.event (codes "found")
      then handle (on_found env ctx acc w ev) (λ _. pure tt) (λ _. pure tt)
      else pure tt

  -- `handleWorkerEvents`, on the events until the channel is closed.
  pub handle_worker_events : Ctx → Miner Address Key → ℕ → List (WorkerEvent F) → Act env (Unit {0})
  handle_worker_events ctx acc w [] = pure tt
  handle_worker_events ctx acc w (ev ∷ evs) =
      handle_event ctx acc w ev >> handle_worker_events ctx acc w evs

  -- `if len(ready.GPUDevices) > 0`
  unfoldable pub note_devices : List GpuDevice → Engine env → Engine env
  note_devices [] e = e
  note_devices (d ∷ devices) e = record e { gpu_available = true; gpu_device_list = d ∷ devices }

  -- The test of the first event; a closed channel gives the zero event.
  unfoldable pub accept_ready : Option (WorkerEvent F) → Act env (Unit {0})
  unfolding note_devices
  accept_ready none = fail (errorf "worker[%d] unexpected first event: %s")
  accept_ready (some ev) =
      if text_eq ev.event (codes "ready")
      then (do e ← engine env; store env (note_devices ev.gpu_devices e))
      else fail (errorf "worker[%d] unexpected first event: %s")

  -- The literal `&workerSlot{…}`, its counters zero.
  unfoldable pub slot_of : WorkerMode → Miner Address Key → ℕ → WorkerSlot Address Key
  slot_of mode acc w = record {
    miner = acc;
    worker = w;
    active_mode = mode;
    last_hashrate = 0;
    last_hashes = 0;
    last_elapsed_ms = 0;
  }

  -- One account of the loop of `spawnWorkers`, where its `ready` event is received there and not by the
  -- goroutine of `handleWorkerEvents`, which waits on the same channel.
  unfoldable pub spawn_worker : Ctx → WorkerMode → Miner Address Key → Act env (Unit {0})
  spawn_worker ctx mode acc = do
    e ← engine env
    w ← wrapping "start worker[%d]: %w" (on_world env (host.start_worker ctx e.core_bin))
    e' ← engine env
    store env (record e' { workers = e'.workers ++ (slot_of mode acc w ∷ []) })
    first_event ← on_world env (host.receive w)
    accept_ready first_event
    wrapping "start job[%d]: %w" (start_job env ctx acc w mode)

  unfoldable pub spawn_each : Ctx → WorkerMode → List (Miner Address Key) → Act env (Unit {0})
  spawn_each ctx mode [] = pure tt
  spawn_each ctx mode (acc ∷ accs) = spawn_worker ctx mode acc >> spawn_each ctx mode accs

  -- `spawnWorkers`, on the accounts with their pointers.
  unfoldable pub spawn_workers : Ctx → List (Miner Address Key) → Act env (Unit {0})
  spawn_workers ctx accs = do mode ← resolve_mode env ctx; spawn_each ctx mode accs

  pub stop_each : List (WorkerSlot Address Key) → Act env (Unit {0})
  stop_each [] = pure tt
  stop_each (slot ∷ slots) =
      handle (on_world env (host.stop_worker slot.worker)) (λ _. stop_each slots)
        (λ _. stop_each slots)

  -- `stopAllWorkers`
  pub stop_all_workers : Act env (Unit {0})
  stop_all_workers = do
    e ← engine env
    stop_each e.workers
    e' ← engine env
    store env (record e' { workers = [] })

  verdict : Receipt → WatchEnd
  verdict r = if r.status == 1 then mined r.block_number else reverted r.block_number

  -- `watchTx`, on the wakes before its deadline.
  pub watch_tx : Ctx → Hash → List Wake → Act env WatchEnd
  watch_tx ctx tx [] = pure timeout
  watch_tx ctx tx (cancelled ∷ wakes) = pure stopped
  watch_tx ctx tx (ticked ∷ wakes) = do
    e ← engine env
    handle (on_chain env (transaction_receipt net ctx e.reader.client tx)) (λ r. pure (verdict r))
        (λ _. watch_tx ctx tx wakes)
