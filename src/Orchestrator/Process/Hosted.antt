-- ===== src/Orchestrator/Process/Hosted.antt =====
-- internal/orchestrator: the engine's workers as the processes of worker.go, which fill its interface `Host`.
-- A worker is found by its pointer in the world.
pub mod Send
use hash256_miner.Base.{
  ℕ, ◌≡◌, refl, sym, ap, ◌∙◌, Option, some, List, [], ◌∷◌, ◌++◌, Bytes, Result, ok, err, panic,
  Exec, pure, lift, wrapping, ◌>>=◌, ◌>>◌, >>=-run, wrapping-ok,
}
use hash256_miner.Chain.Rpc.{Rpc}
use hash256_miner.Orchestrator.Protocol.{Command}
use hash256_miner.Orchestrator.Engine.{Host}
use hash256_miner.Orchestrator.Process.{
  Exe, Worker, OnWorker, system, new_worker, start_worker, write_to, send_command, stop_process,
}

-- Where the world keeps the workers; a worker's own world is not kept with it.
pub record Fleet (W H : Type 0) : Type 0 where
  pub fresh : W → ℕ
  pub fetch : ℕ → W → Worker W H
  pub keep : ℕ → Worker W H → W → W

-- What was kept is fetched.
unfoldable pub KeepsWorkers : {W H : Type 0} → Fleet W H → Type 0
KeepsWorkers {W} {H} fleet =
    (id : ℕ) (v : Worker W H) (w : W) → (fleet.fetch id (fleet.keep id v w)).stdin ≡ v.stdin

pub pointer_of : ℕ → Result (Unit {0}) → Result ℕ
pointer_of id (ok u) = ok id
pointer_of id (err e) = err e
pointer_of id (panic s) = panic s

module _ {W H : Type 0} (exe : Exe W H) (fleet : Fleet W H) where
  open fleet use {fresh, fetch, keep}

  -- A method of the worker behind a pointer.
  pub call_worker : ℕ → OnWorker exe (Unit {0}) → Exec W (Unit {0})
  call_worker id m w = let r = m (record (fetch id w) { world = w }) in (r.0, keep id r.1 r.1.world)

  -- `w := NewWorker(e.CoreBin)` and `w.Start(ctx)`.
  unfoldable pub spawn : Bytes → Exec W ℕ
  unfolding pointer_of
  spawn path w =
      let r = start_worker exe (new_worker exe path w) in
      (pointer_of (fresh w) r.0, keep (fresh w) r.1 r.1.world)

-- The interface, filled; `base` has what is not the workers', and the blocking receive.
unfoldable pub host_of :
    {net : Rpc} {F H : Type 0} → Host net F → Exe net.W H → Fleet net.W H → Host net F
unfolding call_worker spawn
host_of base exe fleet = record base {
  start_worker = λ ctx bin. spawn exe fleet bin;
  send = λ id cmd. call_worker exe fleet id (send_command exe cmd);
  stop_worker = λ id. call_worker exe fleet id (stop_process exe);
}
