-- ===== src/Orchestrator/Run/Unpaid.antt =====
-- internal/orchestrator/engine.go: `Run` before an observer that sees none of its calls.
use hash256_miner.Base.{
  Bool-cases, inl, inr, ℕ, ◌≡◌, refl, ◌∙◌, Option, List, [], ◌∷◌, Result, resume_rule,
  wrapping_rule,
}
use hash256_miner.Orchestrator.Engine.{Env, Miner, Sys, current_epoch, poll_state}
use hash256_miner.Orchestrator.Engine.Unseen.{poll_state-unseen}
use hash256_miner.Orchestrator.Engine.Untold.{Blind, Same}
use hash256_miner.Orchestrator.Found.Payments.{SeesPayments}
use hash256_miner.Orchestrator.Loop.{poll_tick, spawn_workers}
use hash256_miner.Orchestrator.Loop.Unpaid.{
  poll_tick-Same, spawn_workers-Same, stop_all_workers-Same,
}
use hash256_miner.Orchestrator.Run.{
  is_interval, run_loop, Tick, stats, polling, cancelled_run, run_ticks, run,
}

module _ {L : Type 0} (env : Env) (seen : env.net.W → L) (blind : Blind env seen) where
  open env use {net}
  open net use {Ctx, Address, Key}

  run_ticks-Same :
      (ctx : Ctx) (last : Option ℕ) (ticks : List Tick) (s : Sys env)
      → Same env seen s (run_ticks env ctx last ticks s)
  unfolding run_ticks cancelled_run
  run_ticks-Same ctx last [] s = refl
  run_ticks-Same ctx last (stats ∷ ticks) s = run_ticks-Same ctx last ticks s
  run_ticks-Same ctx last (polling ∷ ticks) s =
      let t = poll_tick env ctx last s in
      let quiet : Same env seen s t = poll_tick-Same env seen blind ctx last s in
      resume_rule (Same env seen s) t.0 _ _ t.1 (λ now _. run_ticks-Same ctx now ticks t.1 ∙ quiet)
        (λ _ _. quiet) (λ _ _. quiet)

  run_loop-Same :
      (ctx : Ctx) (ticks : List Tick) (s : Sys env) → Same env seen s (run_loop env ctx ticks s)
  unfolding run_loop
  run_loop-Same ctx ticks s = elim (Bool-cases (is_interval s.engine.cfg.mining.poll_interval_ms)) [
    | inl starts ↦ rw starts (run_ticks-Same ctx (current_epoch env s.engine) ticks s)
    | inr refused ↦ rw refused refl
  ]

  -- An observer that sees neither the calls of the contract nor those of the workers sees nothing of `Run`.
  run-Same :
      (ctx : Ctx) (miners : List (Miner Address Key)) (ticks : List Tick) (s : Sys env)
      → Same env seen s (run env ctx miners ticks s)
  unfolding run
  run-Same ctx miners ticks s =
      let P : Result (Unit {0}) × Sys env → Type 0 = Same env seen s in
      let p = poll_state env ctx s in
      let quiet₁ : Same env seen s p = poll_state-unseen env seen blind.views ctx s in
      let m = spawn_workers env ctx miners p.1 in
      let quiet₂ : Same env seen s m = spawn_workers-Same env seen blind ctx miners p.1 ∙ quiet₁ in
      let t = run_loop env ctx ticks m.1 in
      let quiet₃ : Same env seen s t = run_loop-Same ctx ticks m.1 ∙ quiet₂ in
      wrapping_rule P "initial state: %w" (poll_state env ctx) _ s
        (λ _ _.
          wrapping_rule P "spawn workers: %w" (spawn_workers env ctx miners) _ p.1
            (λ _ _. stop_all_workers-Same env seen blind t.1 ∙ quiet₃) (λ _ _. quiet₂)
            (λ _ _. quiet₂))
        (λ _ _. quiet₁) (λ _ _. quiet₁)

module _ (env : Env) where
  open env use {net}
  open net use {W, Ctx, Address, Key, Signed}

  -- `Run` itself, its polls, retargets, spawning and stopping, hands no transaction to the node,
  -- however it ends. The observer of the transactions must see each one that is handed to a node,
  -- and no other call.
  pub run_unpaid :
      (seen : W → List Signed)
      → SeesPayments env seen
      → (ctx : Ctx) (miners : List (Miner Address Key)) (ticks : List Tick) (s : Sys env)
      → seen (run env ctx miners ticks s).1.chain.world ≡ seen s.chain.world
  run_unpaid seen sees ctx miners ticks s =
      run-Same env seen (record { views = sees.views; workers = sees.workers; send = sees.send })
        ctx miners ticks s
