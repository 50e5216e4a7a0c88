-- ===== src/Orchestrator/Loop/Crewed.antt =====
-- internal/orchestrator/engine.go: the workers behind `spawnWorkers`.
use hash256_miner.Base.{
  ℕ, ◌≡◌, sym, ap, ◌∙◌, List, [], ◌∷◌, ◌++◌, append_assoc, append-nil, ok, ok-injective, >>=-ok,
  >>=-run, Bool, true, false, Bool-cases, inl, inr, if◌then◌else◌, codes, text_eq, to_lower,
}
use hash256_miner.Orchestrator.Protocol.{WorkerMode, cpu, gpu}
use hash256_miner.Orchestrator.Engine.{
  Env, Miner, WorkerSlot, Engine, Sys, detect_gpu, resolve_mode,
}
use hash256_miner.Orchestrator.Engine.Seen.{Sent, SeesStarts}
use hash256_miner.Orchestrator.Engine.Unseen.{resolve_mode-unseen}
use hash256_miner.Orchestrator.Engine.Keeps.{resolve_mode-Keeps}
use hash256_miner.Orchestrator.Loop.{slot_of, spawn_worker, spawn_each, spawn_workers}
use hash256_miner.Orchestrator.Loop.Jobs.{JobFor, JobFor-SameJobs, SameJobs}
use hash256_miner.Orchestrator.Loop.Starts.{spawn_worker-SpawnedOne}

module _ (env : Env) where
  open env use {net}
  open net use {W, Ctx, Address, Key}

  -- The mode of all jobs: what the configuration asks for, in any case of its letters; with `auto`
  -- what the probe for a device has found; and else `cpu`.
  pub data ModeFor (ctx : Ctx) (s : Sys env) : WorkerMode → Type 0 where
    asked_gpu : text_eq (to_lower s.engine.cfg.miner.mode) (codes "gpu") ≡ true → ModeFor ctx s gpu
    asked_cpu : text_eq (to_lower s.engine.cfg.miner.mode) (codes "cpu") ≡ true → ModeFor ctx s cpu
    probed :
        {found : Bool}
        → text_eq s.engine.cfg.miner.mode (codes "auto") ≡ true
        → (detect_gpu env ctx s).0 ≡ ok found
        → ModeFor ctx s (if found then gpu else cpu)
    unknown :
        text_eq (to_lower s.engine.cfg.miner.mode) (codes "gpu") ≡ false
        → text_eq s.engine.cfg.miner.mode (codes "auto") ≡ false
        → ModeFor ctx s cpu

  resolve_mode-ModeFor :
      (ctx : Ctx) (s : Sys env) {mode : WorkerMode}
      → (resolve_mode env ctx s).0 ≡ ok mode
      → ModeFor ctx s mode
  unfolding resolve_mode
  resolve_mode-ModeFor ctx s h =
      let m = s.engine.cfg.miner.mode in
      elim (Bool-cases (text_eq (to_lower m) (codes "gpu"))) [
        | inl is_gpu ↦ rw (← ok-injective (rw is_gpu at h)) (asked_gpu is_gpu)
        | inr not_gpu ↦
            let h₁ = rw not_gpu at h in
            elim (Bool-cases (text_eq (to_lower m) (codes "cpu"))) [
              | inl is_cpu ↦ rw (← ok-injective (rw is_cpu at h₁)) (asked_cpu is_cpu)
              | inr not_cpu ↦
                  let h₂ = rw not_cpu at h₁ in
                  elim (Bool-cases (text_eq m (codes "auto"))) [
                    | inl auto ↦
                        let (found, e, r) = >>=-ok (detect_gpu env ctx) _ s (rw auto at h₂) in
                        rw (← ok-injective r) (probed auto e)
                    | inr other ↦ rw (← ok-injective (rw other at h₂)) (unknown not_gpu other)
                  ]
            ]
      ]

  -- The slot of a new worker, its counters zero.
  abbrev pub new_slot : WorkerMode → Miner Address Key → ℕ → WorkerSlot Address Key
  new_slot mode acc w = record {
    miner = acc;
    worker = w;
    active_mode = mode;
    last_hashrate = 0;
    last_hashes = 0;
    last_elapsed_ms = 0;
  }

  -- Each account has one worker, in their order, and each worker one command, its account's job.
  pub data Crewed (e : Engine env) (mode : WorkerMode)
      : List (Miner Address Key) → List (WorkerSlot Address Key) → List Sent → Type 0 where
    no_accounts : Crewed e mode [] [] []
    crewed :
        {acc : Miner Address Key} {accs : List (Miner Address Key)}
        {slots : List (WorkerSlot Address Key)} {cmd : Sent} {sent : List Sent} (worker : ℕ)
        → JobFor env e mode acc worker cmd
        → Crewed e mode accs slots sent
        → Crewed e mode (acc ∷ accs) (new_slot mode acc worker ∷ slots) (cmd ∷ sent)

  Crewed-SameJobs :
      {e e' : Engine env} {mode : WorkerMode} {accs : List (Miner Address Key)}
      {slots : List (WorkerSlot Address Key)} {sent : List Sent}
      → SameJobs env e e'
      → Crewed e' mode accs slots sent
      → Crewed e mode accs slots sent
  Crewed-SameJobs same no_accounts = no_accounts
  Crewed-SameJobs same (crewed w job rest) =
      crewed w (JobFor-SameJobs env same job) (Crewed-SameJobs same rest)

  -- The slots that were added and the commands that were sent between two states.
  pub record Grown (e : Engine env) (mode : WorkerMode) (accs : List (Miner Address Key))
      (seen : W → List Sent) (s t : Sys env) : Type 0 where
    pub slots : List (WorkerSlot Address Key)
    pub commands : List Sent
    pub crew : Crewed e mode accs slots commands
    pub workers : t.engine.workers ≡ s.engine.workers ++ slots
    pub sent : seen t.chain.world ≡ seen s.chain.world ++ commands

  module _ (seen : W → List Sent) (sees : SeesStarts env seen) where
    spawn_each-Grown :
        (ctx : Ctx) (mode : WorkerMode) (accs : List (Miner Address Key)) (s : Sys env)
        → (spawn_each env ctx mode accs s).0 ≡ ok tt
        → Grown s.engine mode accs seen s (spawn_each env ctx mode accs s).1
    unfolding spawn_each slot_of
    spawn_each-Grown ctx mode [] s h = record {
      slots = [];
      commands = [];
      crew = no_accounts;
      workers = sym (append-nil s.engine.workers);
      sent = sym (append-nil (seen s.chain.world));
    }
    spawn_each-Grown ctx mode (acc ∷ accs) s h =
        let (_, h₁, h₂, run) = >>=-run (spawn_worker env ctx mode acc) _ s h in
        let t : Sys env = (spawn_worker env ctx mode acc s).1 in
        let one = spawn_worker-SpawnedOne env seen sees ctx mode acc s h₁ in
        let rest = spawn_each-Grown ctx mode accs t h₂ in
        record {
          slots = new_slot mode acc one.worker ∷ rest.slots;
          commands = one.cmd ∷ rest.commands;
          crew = crewed one.worker one.job (Crewed-SameJobs one.same rest.crew);
          workers =
              ap (λ out. out.1.engine.workers) run
              ∙ rest.workers
              ∙ ap (λ l. l ++ rest.slots) one.workers
              ∙ append_assoc s.engine.workers (slot_of env mode acc one.worker ∷ []) rest.slots;
          sent =
              ap (λ out. seen out.1.chain.world) run
              ∙ rest.sent
              ∙ ap (λ l. l ++ rest.commands) one.sent
              ∙ append_assoc (seen s.chain.world) (one.cmd ∷ []) rest.commands;
        }

    -- Where `spawnWorkers` itself receives the first events, and returns without an error, it has
    -- added one worker for each account, in the order of the accounts and with one mode for all,
    -- and has sent each just one command: the start of a job with a challenge that the contract
    -- gave for that account, a prefix that was drawn, and the engine's difficulty and settings. The
    -- mode is the one that the configuration asks for, or that the probe for a device decides. The
    -- observer of the commands must see each send, and none of the other calls.
    pub spawn_workers-Grown :
        (ctx : Ctx) (accs : List (Miner Address Key)) (s : Sys env)
        → (spawn_workers env ctx accs s).0 ≡ ok tt
        → (mode : WorkerMode) × ModeFor ctx s mode
          × Grown s.engine mode accs seen s (spawn_workers env ctx accs s).1
    unfolding spawn_workers
    spawn_workers-Grown ctx accs s h =
        let (mode, h₁, h₂, run) = >>=-run (resolve_mode env ctx) _ s h in
        let t : Sys env = (resolve_mode env ctx s).1 in
        let same : t.engine ≡ s.engine = resolve_mode-Keeps env ctx s in
        let grown = spawn_each-Grown ctx mode accs t h₂ in
        (
          mode,
          resolve_mode-ModeFor ctx s h₁,
          record {
            slots = grown.slots;
            commands = grown.commands;
            crew = rw (← same) grown.crew;
            workers =
                ap (λ out. out.1.engine.workers) run
                ∙ grown.workers
                ∙ ap (λ e. e.workers ++ grown.slots) same;
            sent =
                ap (λ out. seen out.1.chain.world) run
                ∙ grown.sent
                ∙ ap (λ l. l ++ grown.commands) (resolve_mode-unseen env seen sees.workers ctx s);
          },
        )
