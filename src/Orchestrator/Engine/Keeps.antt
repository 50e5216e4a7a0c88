-- ===== src/Orchestrator/Engine/Keeps.antt =====
-- internal/orchestrator/engine.go: the engine's own fields along its calls of clients and workers.
use hash256_miner.Base.{
  ℕ, ◌≡◌, refl, ◌∙◌, Err, Result, ok, err, panic, resume, handle, wrapping, pure, fail,
  if◌then◌else◌, Bool-cases, inl, inr, text_eq, to_lower, codes,
}
use hash256_miner.Chain.Reader.{get_challenge}
use hash256_miner.Orchestrator.Codec.{random_prefix24_hex}
use hash256_miner.Orchestrator.Protocol.{WorkerMode, cpu, gpu}
use hash256_miner.Orchestrator.Engine.{
  Env, Miner, Sys, Act, on_chain, on_world, detect_gpu, resolve_mode, get_challenge_for, start_job,
}

module _ (env : Env) where
  open env use {net, lib, host}
  open net use {Ctx, Address, Key}

  -- The call leaves the engine's own fields as they are.
  abbrev pub KeepsEngine : {A : Type 0} → Act env A → Type 0
  KeepsEngine m = (s : Sys env) → (m s).1.engine ≡ s.engine

  pub handle-Keeps :
      {A B : Type 0} (m : Act env A) (k : A → Act env B) (h : Err → Act env B)
      → KeepsEngine m
      → ((a : A) → KeepsEngine (k a))
      → ((e : Err) → KeepsEngine (h e))
      → KeepsEngine (handle m k h)
  handle-Keeps m k h km kk kh s = go (m s).0 (m s).1 (km s)
    where
      go :
          (r : Result _) (s' : Sys env)
          → s'.engine ≡ s.engine
          → (resume r k h s').1.engine ≡ s.engine
      go (ok a) s' e = kk a s' ∙ e
      go (err x) s' e = kh x s' ∙ e
      go (panic m) s' e = e

  detect_gpu-Keeps : (ctx : Ctx) → KeepsEngine (detect_gpu env ctx)
  unfolding detect_gpu
  detect_gpu-Keeps ctx s =
      handle-Keeps (on_world env (host.start_worker ctx s.engine.core_bin)) _ _ (λ _. refl)
        (λ w.
          handle-Keeps (on_world env (host.receive w)) _ fail (λ _. refl)
            (λ ev.
              handle-Keeps (on_world env (host.stop_worker w)) _ _ (λ _. refl) (λ _ _. refl)
                (λ _ _. refl))
            (λ _ _. refl))
        (λ _ _. refl) s

  pub resolve_mode-Keeps : (ctx : Ctx) → KeepsEngine (resolve_mode env ctx)
  unfolding resolve_mode
  resolve_mode-Keeps ctx s =
      let mode = s.engine.cfg.miner.mode in
      elim (Bool-cases (text_eq (to_lower mode) (codes "gpu"))) [
        | inl a ↦ rw a refl
        | inr a ↦ rw a (elim (Bool-cases (text_eq (to_lower mode) (codes "cpu"))) [
          | inl b ↦ rw b refl
          | inr b ↦ rw b (elim (Bool-cases (text_eq mode (codes "auto"))) [
            | inl c ↦ rw c (
                handle-Keeps (detect_gpu env ctx) (λ found. pure (if found then gpu else cpu)) fail
                  (detect_gpu-Keeps ctx) (λ _ _. refl) (λ _ _. refl) s)
            | inr c ↦ rw c refl
          ])
        ])
      ]

  pub get_challenge_for-Keeps :
      (ctx : Ctx) (addr : Address) → KeepsEngine (get_challenge_for env ctx addr)
  unfolding get_challenge_for
  get_challenge_for-Keeps ctx addr s =
      handle-Keeps (on_chain env (get_challenge net lib ctx s.engine.reader addr)) _ fail
        (λ _. refl) (λ _ _. refl) (λ _ _. refl) s

  pub start_job-Keeps :
      (ctx : Ctx) (acc : Miner Address Key) (w : ℕ) (mode : WorkerMode)
      → KeepsEngine (start_job env ctx acc w mode)
  unfolding start_job
  start_job-Keeps ctx acc w mode s =
      handle-Keeps (wrapping "challenge for %s: %w" (get_challenge_for env ctx acc.account.address))
        _ fail
        (handle-Keeps (get_challenge_for env ctx acc.account.address) pure _
          (get_challenge_for-Keeps ctx acc.account.address) (λ _ _. refl) (λ _ _. refl))
        (λ ch s'.
          handle-Keeps (on_world env (random_prefix24_hex host.rand_read)) _ fail (λ _. refl)
            (λ _ _. refl) (λ _ _. refl) s')
        (λ _ _. refl) s
