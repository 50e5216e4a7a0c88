-- ===== src/Orchestrator/Loop/Jobs.antt =====
-- internal/orchestrator/engine.go: the command that `startJob` sends to a worker.
use hash256_miner.Base.{
  ℕ, ◌≡◌, refl, sym, ok-injective, >>=-ok, Exec, ap, ◌∙◌, Option, List, [], ◌∷◌, ◌++◌, Bytes, ok,
  some, none, codes, get_elem?, length, ◌%◌, ℤ, is_positive, if◌then◌else◌, wrapping, >>=-run,
  wrapping-run, wrapping-ok,
}
use hash256_miner.Std.Hex.{hex_encode}
use hash256_miner.Chain.Client.{Net}
use hash256_miner.Chain.Reader.{get_challenge}
use hash256_miner.Orchestrator.Codec.{difficulty_to_hex32, random_prefix24_hex}
use hash256_miner.Orchestrator.Protocol.{WorkerMode, cpu, gpu, mode_text, start}
use hash256_miner.Orchestrator.Engine.{
  Env, Miner, Engine, Sys, on_world, get_difficulty, get_challenge_for, gpu_device_for,
  cpu_threads_for, start_cmd, start_job,
}
use hash256_miner.Orchestrator.Engine.Seen.{Sent, SeesStarts}
use hash256_miner.Orchestrator.Engine.Keeps.{get_challenge_for-Keeps}
use hash256_miner.Orchestrator.Engine.Retargets.{ask-ok}
use hash256_miner.Orchestrator.Engine.Unseen.{ask-unseen, prefix-unseen}

random_prefix24_hex-text :
    {W : Type 0} (read : ℕ → Exec W Bytes) (w : W) {prefix : Bytes}
    → (random_prefix24_hex read w).0 ≡ ok prefix
    → (b : Bytes) × ((read 24 w).0 ≡ ok b) × (prefix ≡ codes "0x" ++ hex_encode b)
unfolding random_prefix24_hex
random_prefix24_hex-text read w h =
    let (b, e, r) = >>=-ok (wrapping "rand: %w" (read 24)) _ w h in
    (b, wrapping-ok "rand: %w" (read 24) w e, sym (ok-injective r))

module _ (env : Env) where
  open env use {fl, net, lib, host}
  open net use {W, Ctx, Conn, Address, Key}

  -- The difficulty that is stored, zero where none is.
  abbrev pub stored_difficulty : Option (Option ℕ) → Option ℕ
  stored_difficulty d = elim d [ none ↦ some 0 | some n ↦ n ]

  -- The device of an account: with `gpu`, one of the configured devices in turn.
  abbrev pub device_in_turn : WorkerMode → ℕ → List ℤ → Option ℤ
  device_in_turn mode index devices = elim mode [
    | cpu ↦ none
    | gpu ↦ get_elem? devices (index % length devices)
  ]

  -- The threads: with `cpu`, the configured number if it is positive.
  abbrev pub threads_if_positive : WorkerMode → ℤ → Option ℤ
  threads_if_positive mode threads = elim mode [
    | cpu ↦ if is_positive threads then some threads else none
    | gpu ↦ none
  ]

  -- The command of a job: the challenge is one that the contract gave for the account, the prefix is
  -- random, and the rest is the engine's difficulty and settings.
  pub record JobFor (e : Engine env) (mode : WorkerMode) (acc : Miner Address Key) (w : ℕ)
      (cmd : Sent) : Type 0 where
    pub ctx : Ctx
    pub at : Net W Conn
    pub challenge : Bytes
    pub read : (get_challenge net lib ctx e.reader acc.account.address at).0 ≡ ok challenge
    pub prefix : Bytes
    pub prefix_world : W
    pub random_bytes : Bytes
    pub drawn : (host.rand_read 24 prefix_world).0 ≡ ok random_bytes
    pub is_text : prefix ≡ codes "0x" ++ hex_encode random_bytes
    pub is_start : cmd ≡ (
      w,
      start (record {
        challenge = codes "0x" ++ hex_encode challenge;
        difficulty = difficulty_to_hex32 (stored_difficulty e.difficulty);
        prefix = prefix;
        batch = e.cfg.miner.batch_size;
        mode = elim mode [ cpu ↦ codes "cpu" | gpu ↦ codes "gpu" ];
        gpu_device = device_in_turn mode acc.account.index e.cfg.miner.gpu_devices;
        cpu_threads = threads_if_positive mode e.cfg.miner.cpu_threads;
      }),
    )

  start_cmd_lem :
      (e : Engine env) (challenge prefix : Bytes) (index : ℕ) (mode : WorkerMode)
      → start_cmd env e challenge prefix index mode ≡ record {
        challenge = challenge;
        difficulty = difficulty_to_hex32 (stored_difficulty e.difficulty);
        prefix = prefix;
        batch = e.cfg.miner.batch_size;
        mode = elim mode [ cpu ↦ codes "cpu" | gpu ↦ codes "gpu" ];
        gpu_device = device_in_turn mode index e.cfg.miner.gpu_devices;
        cpu_threads = threads_if_positive mode e.cfg.miner.cpu_threads;
      }
  unfolding start_cmd get_difficulty gpu_device_for cpu_threads_for mode_text
  start_cmd_lem e challenge prefix index cpu = refl
  start_cmd_lem e challenge prefix index gpu = refl

  module _ (seen : W → List Sent) (sees : SeesStarts env seen) where
    pub start_job-JobFor :
        (ctx : Ctx) (acc : Miner Address Key) (w : ℕ) (mode : WorkerMode) (s : Sys env)
        → (start_job env ctx acc w mode s).0 ≡ ok tt
        → (cmd : Sent) × JobFor s.engine mode acc w cmd
          × (seen (start_job env ctx acc w mode s).1.chain.world ≡ seen s.chain.world ++ (cmd ∷ []))
    unfolding start_job
    start_job-JobFor ctx acc w mode s h =
        let ask = get_challenge_for env ctx acc.account.address in
        let (text, h₁, h₂, run₁) = >>=-run (wrapping "challenge for %s: %w" ask) _ s h in
        let same_run = wrapping-run "challenge for %s: %w" ask s h₁ in
        let s₁ : Sys env = (wrapping "challenge for %s: %w" ask s).1 in
        let (challenge, read, is_text) =
          ask-ok env seen sees.commands ctx acc.account.address s
            (wrapping-ok "challenge for %s: %w" ask s h₁) in
        let same : s₁.engine ≡ s.engine =
          ap (λ out. out.1.engine) same_run
          ∙ get_challenge_for-Keeps env ctx acc.account.address s in
        let unseen₁ : seen s₁.chain.world ≡ seen s.chain.world =
          ap (λ out. seen out.1.chain.world) same_run
          ∙ ask-unseen env seen sees.commands.views ctx acc.account.address s in
        let (prefix, h₃, h₄, run₂) =
          >>=-run (on_world env (random_prefix24_hex host.rand_read)) _ s₁ h₂ in
        let s₂ : Sys env = (on_world env (random_prefix24_hex host.rand_read) s₁).1 in
        let drawn = random_prefix24_hex-text host.rand_read s₁.chain.world h₃ in
        let unseen₂ : seen s₂.chain.world ≡ seen s₁.chain.world =
          prefix-unseen env seen sees.workers s₁.chain.world in
        let cmd : Sent = (w, start (start_cmd env s₁.engine text prefix acc.account.index mode)) in
        let now = sees.commands.send w cmd.1 s₂.chain.world in
        (
          cmd,
          record {
            ctx = ctx;
            at = s.chain;
            challenge = challenge;
            read = read;
            prefix = prefix;
            prefix_world = s₁.chain.world;
            random_bytes = drawn.0;
            drawn = drawn.1;
            is_text = drawn.2;
            is_start =
                rw (start_cmd_lem s₁.engine text prefix acc.account.index mode, same, is_text) refl;
          },
          ap (λ out. seen out.1.chain.world) (run₁ ∙ run₂)
              ∙ now
              ∙ ap (λ l. l ++ (cmd ∷ [])) (unseen₂ ∙ unseen₁),
        )

  -- The engines that give the same jobs.
  pub record SameJobs (e e' : Engine env) : Type 0 where
    pub reader : e'.reader ≡ e.reader
    pub cfg : e'.cfg ≡ e.cfg
    pub difficulty : e'.difficulty ≡ e.difficulty

  pub JobFor-SameJobs :
      {e e' : Engine env} {mode : WorkerMode} {acc : Miner Address Key} {w : ℕ} {cmd : Sent}
      → SameJobs e e'
      → JobFor e' mode acc w cmd
      → JobFor e mode acc w cmd
  JobFor-SameJobs {e} {e'} {mode} {acc} {w} same job = record {
    ctx = job.ctx;
    at = job.at;
    challenge = job.challenge;
    read = rw (← same.reader) job.read;
    prefix = job.prefix;
    prefix_world = job.prefix_world;
    random_bytes = job.random_bytes;
    drawn = job.drawn;
    is_text = job.is_text;
    is_start = rw (same.cfg, same.difficulty) at job.is_start;
  }
