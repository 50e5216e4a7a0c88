-- ===== src/Orchestrator/Loop/Starts.antt =====
-- internal/orchestrator/engine.go: the worker that `spawnWorkers` starts for an account.
use hash256_miner.Base.{
  ℕ, ◌≡◌, refl, ap, ◌∙◌, Option, List, [], ◌∷◌, ◌++◌, ok, some, none, Bool-cases, inl, inr, text_eq,
  codes, wrapping, >>=-run, wrapping-run, wrapping-ok,
}
use hash256_miner.Orchestrator.Protocol.{WorkerMode, GpuDevice, WorkerEvent}
use hash256_miner.Orchestrator.Engine.{Env, Miner, Engine, Sys, on_world, start_job}
use hash256_miner.Orchestrator.Engine.Seen.{Sent, SeesStarts}
use hash256_miner.Orchestrator.Engine.Keeps.{start_job-Keeps}
use hash256_miner.Orchestrator.Loop.{note_devices, accept_ready, slot_of, spawn_worker}
use hash256_miner.Orchestrator.Loop.Jobs.{JobFor, SameJobs, JobFor-SameJobs, start_job-JobFor}

module _ (env : Env) where
  open env use {fl, net, lib, host}
  open net use {W, Ctx, Conn, Address, Key}

  -- The worker that was started for an account, and its command.
  pub record SpawnedOne (mode : WorkerMode) (acc : Miner Address Key) (seen : W → List Sent)
      (s t : Sys env) : Type 0 where
    pub worker : ℕ
    pub cmd : Sent
    pub job : JobFor env s.engine mode acc worker cmd
    pub same : SameJobs env s.engine t.engine
    pub workers : t.engine.workers ≡ s.engine.workers ++ (slot_of env mode acc worker ∷ [])
    pub sent : seen t.chain.world ≡ seen s.chain.world ++ (cmd ∷ [])

  note_devices-SameJobs :
      (devices : List GpuDevice) (e : Engine env)
      → SameJobs env e (note_devices env devices e)
        × ((note_devices env devices e).workers ≡ e.workers)
  unfolding note_devices
  note_devices-SameJobs [] e = (record { reader = refl; cfg = refl; difficulty = refl }, refl)
  note_devices-SameJobs (d ∷ devices) e =
      (record { reader = refl; cfg = refl; difficulty = refl }, refl)

  accept_ready-SameJobs :
      (o : Option (WorkerEvent fl.F)) (s : Sys env)
      → (accept_ready env o s).0 ≡ ok tt
      → SameJobs env s.engine (accept_ready env o s).1.engine
        × ((accept_ready env o s).1.engine.workers ≡ s.engine.workers)
        × ((accept_ready env o s).1.chain ≡ s.chain)
  unfolding accept_ready
  accept_ready-SameJobs none s h = cc
  accept_ready-SameJobs (some ev) s h = elim (Bool-cases (text_eq ev.event (codes "ready"))) [
    | inl is ↦ rw is (
        let (same, workers) = note_devices-SameJobs ev.gpu_devices s.engine in
        (same, workers, refl))
    | inr is_not ↦ let h' = rw is_not at h in cc
  ]

  module _ (seen : W → List Sent) (sees : SeesStarts env seen) where
    pub spawn_worker-SpawnedOne :
        (ctx : Ctx) (mode : WorkerMode) (acc : Miner Address Key) (s : Sys env)
        → (spawn_worker env ctx mode acc s).0 ≡ ok tt
        → SpawnedOne mode acc seen s (spawn_worker env ctx mode acc s).1
    unfolding spawn_worker
    spawn_worker-SpawnedOne ctx mode acc s h =
        let begin = on_world env (host.start_worker ctx s.engine.core_bin) in
        let (w, h₁, h₂, run₁) = >>=-run (wrapping "start worker[%d]: %w" begin) _ s h in
        let same_run = wrapping-run "start worker[%d]: %w" begin s h₁ in
        let s₁ : Sys env = (wrapping "start worker[%d]: %w" begin s).1 in
        let same₁ : s₁.engine ≡ s.engine = ap (λ out. out.1.engine) same_run in
        let unseen₁ : seen s₁.chain.world ≡ seen s.chain.world =
          ap (λ out. seen out.1.chain.world) same_run
          ∙ sees.workers.start_worker ctx s.engine.core_bin s.chain.world in
        let slots = s₁.engine.workers ++ (slot_of env mode acc w ∷ []) in
        let s₂ : Sys env = record s₁ { engine = record s₁.engine { workers = slots } } in
        let (first, h₃, h₄, run₂) = >>=-run (on_world env (host.receive w)) _ s₂ h₂ in
        let s₃ : Sys env = (on_world env (host.receive w) s₂).1 in
        let unseen₃ : seen s₃.chain.world ≡ seen s₁.chain.world =
          sees.workers.receive w s₁.chain.world in
        let (_, h₅, h₆, run₃) = >>=-run (accept_ready env first) _ s₃ h₄ in
        let s₄ : Sys env = (accept_ready env first s₃).1 in
        let (same₄, workers₄, chain₄) = accept_ready-SameJobs first s₃ h₅ in
        let job = start_job env ctx acc w mode in
        let same_job = wrapping-run "start job[%d]: %w" job s₄ h₆ in
        let started = wrapping-ok "start job[%d]: %w" job s₄ h₆ in
        let (cmd, is_job, sent) = start_job-JobFor env seen sees ctx acc w mode s₄ started in
        let ended : spawn_worker env ctx mode acc s ≡ start_job env ctx acc w mode s₄ =
          run₁ ∙ run₂ ∙ run₃ ∙ same_job in
        let kept = start_job-Keeps env ctx acc w mode s₄ in
        let to_s₄ : SameJobs env s.engine s₄.engine = record {
          reader = same₄.reader ∙ ap (λ e. e.reader) same₁;
          cfg = same₄.cfg ∙ ap (λ e. e.cfg) same₁;
          difficulty = same₄.difficulty ∙ ap (λ e. e.difficulty) same₁;
        } in
        let at_end : (spawn_worker env ctx mode acc s).1.engine ≡ s₄.engine =
          ap (λ out. out.1.engine) ended ∙ kept in
        record {
          worker = w;
          cmd = cmd;
          job = JobFor-SameJobs env to_s₄ is_job;
          same = rw at_end to_s₄;
          workers =
              ap (λ e. e.workers) at_end
              ∙ workers₄
              ∙ ap (λ e. e.workers ++ (slot_of env mode acc w ∷ [])) same₁;
          sent =
              ap (λ out. seen out.1.chain.world) ended
              ∙ sent
              ∙ ap (λ l. l ++ (cmd ∷ [])) (ap (λ c. seen c.world) chain₄ ∙ unseen₃ ∙ unseen₁);
        }
