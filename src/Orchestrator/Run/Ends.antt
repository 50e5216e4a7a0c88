-- ===== src/Orchestrator/Run/Ends.antt =====
-- internal/orchestrator/engine.go: the ways out of `Run`.
use hash256_miner.Base.{
  true, Bool-cases, ℕ, ◌≡◌, ◌⊎◌, inl, inr, Option, List, [], ◌∷◌, String, Err, wrap, Result, ok,
  err, panic, resume_rule, after_defer, wrapping_rule,
}
use hash256_miner.Orchestrator.Engine.{Env, Miner, Sys, current_epoch, poll_state}
use hash256_miner.Orchestrator.Loop.{poll_tick, spawn_workers, stop_all_workers}
use hash256_miner.Orchestrator.Loop.Stops.{stopped, poll_tick-NoError, stop_all_workers-cases}
use hash256_miner.Orchestrator.Run.{is_interval, run_loop, Tick, stats, polling, run_ticks, run}

module _ (env : Env) where
  open env use {net, host}
  open net use {W, Ctx, Address, Key}

  -- The state behind the first poll, and behind the spawning.
  abbrev pub after_poll : Ctx → Sys env → Result (Unit {0}) × Sys env
  after_poll ctx s = poll_state env ctx s

  abbrev pub after_spawn : Ctx → List (Miner Address Key) → Sys env → Result (Unit {0}) × Sys env
  after_spawn ctx miners s = spawn_workers env ctx miners (after_poll ctx s).1

  -- The state behind the loop, which starts with the epoch of the first poll.
  abbrev pub after_loop : Ctx → List (Miner Address Key) → List Tick → Sys env → Sys env
  after_loop ctx miners ticks s =
      let spawned = (after_spawn ctx miners s).1 in
      (run_ticks env ctx (current_epoch env spawned.engine) ticks spawned).1

  -- How a run of the engine ends: at the first poll, at the spawning, by a panic, or because its context
  -- is done, and then every worker that the engine had is stopped.
  pub data Ended (ctx : Ctx) (miners : List (Miner Address Key)) (ticks : List Tick) (s : Sys env)
      : Result (Unit {0}) × Sys env → Type 0 where
    no_state :
        {e : Err}
        → (after_poll ctx s).0 ≡ err e
        → Ended ctx miners ticks s (err (wrap "initial state: %w" e), (after_poll ctx s).1)
    no_workers :
        {e : Err}
        → (after_poll ctx s).0 ≡ ok tt
        → (after_spawn ctx miners s).0 ≡ err e
        → Ended ctx miners ticks s (err (wrap "spawn workers: %w" e), (after_spawn ctx miners s).1)
    panicked : {t : Sys env} (m : String) → Ended ctx miners ticks s (panic m, t)
    cancelled :
        {t : Sys env}
        → (after_poll ctx s).0 ≡ ok tt
        → (after_spawn ctx miners s).0 ≡ ok tt
        → is_interval (after_spawn ctx miners s).1.engine.cfg.mining.poll_interval_ms ≡ true
        → t.engine.workers ≡ []
        → t.chain.world
          ≡ stopped env
              (after_loop ctx miners ticks s).engine.workers
              (after_loop ctx miners ticks s).chain.world
        → Ended ctx miners ticks s
            (err (host.ctx_err ctx (after_loop ctx miners ticks s).chain.world), t)

  -- The loop ends when the context is done, or by a panic.
  data LoopEnd (ctx : Ctx) (w : W) : Result (Unit {0}) → Type 0 where
    loop_cancelled : LoopEnd ctx w (err (host.ctx_err ctx w))
    loop_panicked : (m : String) → LoopEnd ctx w (panic m)

  run_ticks-LoopEnd :
      (ctx : Ctx) (last : Option ℕ) (ticks : List Tick) (s : Sys env)
      → LoopEnd ctx
          (run_ticks env ctx last ticks s).1.chain.world
          (run_ticks env ctx last ticks s).0
  unfolding run_ticks
  run_ticks-LoopEnd ctx last [] s = loop_cancelled
  run_ticks-LoopEnd ctx last (stats ∷ ticks) s = run_ticks-LoopEnd ctx last ticks s
  run_ticks-LoopEnd ctx last (polling ∷ ticks) s =
      resume_rule (λ out. LoopEnd ctx out.1.chain.world out.0) (poll_tick env ctx last s).0 _ _
        (poll_tick env ctx last s).1
        (λ now _. run_ticks-LoopEnd ctx now ticks (poll_tick env ctx last s).1)
        (λ e h. absurd (poll_tick-NoError env ctx last s e h)) (λ m _. loop_panicked m)

  -- The loop behind its deferred `stopAllWorkers`, by the result of each.
  stopped_loop :
      (ctx : Ctx) (miners : List (Miner Address Key)) (ticks : List Tick) (s : Sys env)
      (r stop : Result (Unit {0})) (t : Sys env)
      → (after_poll ctx s).0 ≡ ok tt
      → (after_spawn ctx miners s).0 ≡ ok tt
      → is_interval (after_spawn ctx miners s).1.engine.cfg.mining.poll_interval_ms ≡ true
      → LoopEnd ctx (after_loop ctx miners ticks s).chain.world r
      → ((m : String) × (stop ≡ panic m))
        ⊎ ((stop ≡ ok tt)
            × (t.engine.workers ≡ [])
            × (t.chain.world
                ≡ stopped env
                    (after_loop ctx miners ticks s).engine.workers
                    (after_loop ctx miners ticks s).chain.world))
      → Ended ctx miners ticks s (after_defer r stop, t)
  stopped_loop ctx miners ticks s r stop t a b starts loop_cancelled (inl (m, e)) =
      rw e (panicked m)
  stopped_loop ctx miners ticks s r stop t a b starts loop_cancelled (inr (e, none_left, all)) =
      rw e (cancelled a b starts none_left all)
  stopped_loop ctx miners ticks s r stop t a b starts (loop_panicked p) (inl (m, e)) =
      rw e (panicked m)
  stopped_loop ctx miners ticks s r stop t a b starts (loop_panicked p) (inr (e, _, _)) =
      rw e (panicked p)

  -- A loop that panics.
  died_loop :
      (ctx : Ctx) (miners : List (Miner Address Key)) (ticks : List Tick) (s : Sys env) (p : String)
      (stop : Result (Unit {0})) (t : Sys env)
      → Ended ctx miners ticks s (after_defer {A = Unit {0}} (panic p) stop, t)
  died_loop ctx miners ticks s p (ok u) t = panicked p
  died_loop ctx miners ticks s p (err e) t = panicked p
  died_loop ctx miners ticks s p (panic m) t = panicked m

  -- `Run` ends in one of four ways: the first poll fails, and its error is returned; the poll
  -- succeeds and spawning fails, and that error is returned; a call panics; or both succeed, the
  -- interval is one that `NewTicker` takes, and the context is done; then the error is the
  -- context's, every worker that the engine had at the end of its loop has been stopped, in their
  -- order, as the last thing that was done, and none is left in the engine.
  pub run-Ended :
      (ctx : Ctx) (miners : List (Miner Address Key)) (ticks : List Tick) (s : Sys env)
      → Ended ctx miners ticks s (run env ctx miners ticks s)
  unfolding run run_loop
  run-Ended ctx miners ticks s =
      wrapping_rule (Ended ctx miners ticks s) "initial state: %w" (poll_state env ctx) _ s
        (λ _ a.
          wrapping_rule (Ended ctx miners ticks s) "spawn workers: %w"
            (spawn_workers env ctx miners) _ (after_poll ctx s).1
            (λ _ b.
              let s₂ = (after_spawn ctx miners s).1 in
              let last = current_epoch env s₂.engine in
              let s₃ = (run_ticks env ctx last ticks s₂).1 in
              elim (Bool-cases (is_interval s₂.engine.cfg.mining.poll_interval_ms)) [
                | inl starts ↦ rw starts (
                    stopped_loop ctx miners ticks s _ _ (stop_all_workers env s₃).1 a b starts
                      (run_ticks-LoopEnd ctx last ticks s₂) (stop_all_workers-cases env s₃))
                | inr refused ↦ rw refused (
                    died_loop ctx miners ticks s _ (stop_all_workers env s₂).0
                      (stop_all_workers env s₂).1)
              ])
            (λ e b. no_workers a b) (λ m _. panicked m))
        (λ e a. no_state a) (λ m _. panicked m)
