-- ===== src/Orchestrator/Loop/Unpaid.antt =====
-- internal/orchestrator/engine.go: the polls, the spawning and the stopping before an observer that sees none
-- of their calls.
use hash256_miner.Base.{
  ℕ, ◌≡◌, refl, ◌∙◌, Option, none, some, List, [], ◌∷◌, ◌++◌, codes, text_eq, Bool-cases, inl, inr,
  Result, resume_rule, wrapping_rule,
}
use hash256_miner.Orchestrator.Protocol.{WorkerMode, WorkerEvent}
use hash256_miner.Orchestrator.Engine.{
  Env, Miner, WorkerSlot, Sys, on_world, current_epoch, poll_state, retarget_all, resolve_mode,
  start_job,
}
use hash256_miner.Orchestrator.Engine.Unseen.{
  poll_state-unseen, resolve_mode-unseen, start_job-unseen,
}
use hash256_miner.Orchestrator.Engine.Untold.{Blind, Same, retarget_all-Same}
use hash256_miner.Orchestrator.Loop.{
  is_rotated, poll_tick, slot_of, accept_ready, spawn_worker, spawn_each, spawn_workers, stop_each,
  stop_all_workers,
}

module _ {L : Type 0} (env : Env) (seen : env.net.W → L) (blind : Blind env seen) where
  open env use {fl, net, host}
  open net use {Ctx, Address, Key}

  pub poll_tick-Same :
      (ctx : Ctx) (last : Option ℕ) (s : Sys env) → Same env seen s (poll_tick env ctx last s)
  unfolding poll_tick
  poll_tick-Same ctx last s =
      let p = poll_state env ctx s in
      let quiet : Same env seen s p = poll_state-unseen env seen blind.views ctx s in
      let r = retarget_all env p.1 in
      let quiet' : Same env seen s r = retarget_all-Same env seen blind p.1 ∙ quiet in
      resume_rule (Same env seen s) p.0 _ _ p.1
        (λ _ _. elim (Bool-cases (is_rotated (current_epoch env p.1.engine) last)) [
          | inl rotated ↦ rw rotated (
              resume_rule (Same env seen s) r.0 _ _ r.1 (λ _ _. quiet') (λ _ _. quiet')
                (λ _ _. quiet'))
          | inr still ↦ rw still quiet
        ])
        (λ _ _. quiet) (λ _ _. quiet)

  accept_ready-Same :
      (o : Option (WorkerEvent fl.F)) (s : Sys env) → Same env seen s (accept_ready env o s)
  unfolding accept_ready
  accept_ready-Same none s = refl
  accept_ready-Same (some ev) s = elim (Bool-cases (text_eq ev.event (codes "ready"))) [
    | inl is ↦ rw is refl
    | inr is_not ↦ rw is_not refl
  ]

  spawn_worker-Same :
      (ctx : Ctx) (mode : WorkerMode) (acc : Miner Address Key) (s : Sys env)
      → Same env seen s (spawn_worker env ctx mode acc s)
  unfolding spawn_worker
  spawn_worker-Same ctx mode acc s =
      let P : Result (Unit {0}) × Sys env → Type 0 = Same env seen s in
      let begin = on_world env (host.start_worker ctx s.engine.core_bin) in
      let s₁ : Sys env = (begin s).1 in
      let quiet₁ : seen s₁.chain.world ≡ seen s.chain.world =
        blind.workers.start_worker ctx s.engine.core_bin s.chain.world in
      wrapping_rule P "start worker[%d]: %w" begin _ s
        (λ w _.
          let s₂ : Sys env = record s₁ {
            engine = record s₁.engine {
              workers = s₁.engine.workers ++ (slot_of env mode acc w ∷ []);
            };
          } in
          let got = on_world env (host.receive w) s₂ in
          let quiet₂ : seen got.1.chain.world ≡ seen s.chain.world =
            blind.workers.receive w s₁.chain.world ∙ quiet₁ in
          resume_rule P got.0 _ _ got.1
            (λ o _.
              let a = accept_ready env o got.1 in
              let quiet₃ : seen a.1.chain.world ≡ seen s.chain.world =
                accept_ready-Same o got.1 ∙ quiet₂ in
              resume_rule P a.0 _ _ a.1
                (λ _ _.
                  let quiet₄ =
                    start_job-unseen env seen blind.workers blind.views blind.send ctx acc w mode
                      a.1
                    ∙ quiet₃ in
                  let job = start_job env ctx acc w mode a.1 in
                  resume_rule P job.0 _ _ job.1 (λ _ _. quiet₄) (λ _ _. quiet₄) (λ _ _. quiet₄))
                (λ _ _. quiet₃) (λ _ _. quiet₃))
            (λ _ _. quiet₂) (λ _ _. quiet₂))
        (λ _ _. quiet₁) (λ _ _. quiet₁)

  spawn_each-Same :
      (ctx : Ctx) (mode : WorkerMode) (accs : List (Miner Address Key)) (s : Sys env)
      → Same env seen s (spawn_each env ctx mode accs s)
  unfolding spawn_each
  spawn_each-Same ctx mode [] s = refl
  spawn_each-Same ctx mode (acc ∷ accs) s =
      let one = spawn_worker env ctx mode acc s in
      let quiet : Same env seen s one = spawn_worker-Same ctx mode acc s in
      resume_rule (Same env seen s) one.0 _ _ one.1
        (λ _ _. spawn_each-Same ctx mode accs one.1 ∙ quiet) (λ _ _. quiet) (λ _ _. quiet)

  pub spawn_workers-Same :
      (ctx : Ctx) (accs : List (Miner Address Key)) (s : Sys env)
      → Same env seen s (spawn_workers env ctx accs s)
  unfolding spawn_workers
  spawn_workers-Same ctx accs s =
      let m = resolve_mode env ctx s in
      let quiet : Same env seen s m = resolve_mode-unseen env seen blind.workers ctx s in
      resume_rule (Same env seen s) m.0 _ _ m.1
        (λ mode _. spawn_each-Same ctx mode accs m.1 ∙ quiet) (λ _ _. quiet) (λ _ _. quiet)

  stop_each-Same :
      (slots : List (WorkerSlot Address Key)) (s : Sys env)
      → Same env seen s (stop_each env slots s)
  unfolding stop_each
  stop_each-Same [] s = refl
  stop_each-Same (slot ∷ slots) s =
      let one = on_world env (host.stop_worker slot.worker) s in
      let quiet : Same env seen s one = blind.workers.stop_worker slot.worker s.chain.world in
      resume_rule (Same env seen s) one.0 _ _ one.1 (λ _ _. stop_each-Same slots one.1 ∙ quiet)
        (λ _ _. stop_each-Same slots one.1 ∙ quiet) (λ _ _. quiet)

  pub stop_all_workers-Same : (s : Sys env) → Same env seen s (stop_all_workers env s)
  unfolding stop_all_workers
  stop_all_workers-Same s =
      let r = stop_each env s.engine.workers s in
      let quiet : Same env seen s r = stop_each-Same s.engine.workers s in
      resume_rule (Same env seen s) r.0 _ _ r.1 (λ _ _. quiet) (λ _ _. quiet) (λ _ _. quiet)
