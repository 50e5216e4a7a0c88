-- ===== src/Orchestrator/Loop/Stops.antt =====
-- internal/orchestrator/engine.go: one poll of `Run`, and `stopAllWorkers`.
use hash256_miner.Base.{
  ℕ, ◌≡◌, ◌⊎◌, inl, inr, refl, Option, List, [], ◌∷◌, String, Result, ok, panic, resume_rule, pure,
  Bool-cases,
}
use hash256_miner.Orchestrator.Engine.{
  Env, WorkerSlot, Sys, on_world, current_epoch, poll_state, retarget_all,
}
use hash256_miner.Orchestrator.Engine.Errors.{
  NoError, handle-NoError, seq-NoError, pure-NoError, retarget_all-NoError,
}
use hash256_miner.Orchestrator.Loop.{is_rotated, poll_tick, stop_each, stop_all_workers}

not_both : {r : Result (Unit {0})} {u : Unit {0}} {p : String} → r ≡ ok u → ¬ (r ≡ panic p)
not_both e e' = cc

module _ (env : Env) where
  open env use {net, host}
  open net use {W, Ctx, Address, Key}

  -- A poll of the loop returns no error.
  pub poll_tick-NoError : (ctx : Ctx) (last : Option ℕ) → NoError env (poll_tick env ctx last)
  unfolding poll_tick
  poll_tick-NoError ctx last =
      handle-NoError env (poll_state env ctx) _ (λ _. pure last)
        (λ _ s. elim (Bool-cases (is_rotated (current_epoch env s.engine) last)) [
          | inl rotated ↦ rw rotated (
              seq-NoError env (retarget_all env) (λ _. pure (current_epoch env s.engine))
                (retarget_all-NoError env) (λ _. pure-NoError env (current_epoch env s.engine)) s)
          | inr same ↦ rw same (pure-NoError env (current_epoch env s.engine) s)
        ])
        (λ _. pure-NoError env last)

  -- The loop of `stopAllWorkers` returns, unless a stop panics.
  stop_each-NoError : (slots : List (WorkerSlot Address Key)) → NoError env (stop_each env slots)
  unfolding stop_each
  stop_each-NoError [] = pure-NoError env tt
  stop_each-NoError (slot ∷ slots) =
      handle-NoError env (on_world env (host.stop_worker slot.worker)) (λ _. stop_each env slots)
        (λ _. stop_each env slots) (λ _. stop_each-NoError slots) (λ _. stop_each-NoError slots)

  -- The world behind the stops of the workers, in their order.
  abbrev pub stopped : List (WorkerSlot Address Key) → W → W
  stopped [] w = w
  stopped (slot ∷ slots) w = stopped slots (host.stop_worker slot.worker w).1

  -- The loop stops every worker, whatever a stop returns, unless one panics.
  stop_each-stops :
      (slots : List (WorkerSlot Address Key)) (s : Sys env)
      → ((m : String) × ((stop_each env slots s).0 ≡ panic m))
        ⊎ ((stop_each env slots s).1.chain.world ≡ stopped slots s.chain.world)
  unfolding stop_each
  stop_each-stops [] s = inr refl
  stop_each-stops (slot ∷ slots) s =
      let told = host.stop_worker slot.worker s.chain.world in
      let t : Sys env = record s { chain = record s.chain { world = told.1 } } in
      let P : Result (Unit {0}) × Sys env → Type 0 = λ out.
        ((m : String) × (out.0 ≡ panic m))
        ⊎ (out.1.chain.world ≡ stopped (slot ∷ slots) s.chain.world) in
      resume_rule P told.0 _ _ t (λ _ _. stop_each-stops slots t) (λ _ _. stop_each-stops slots t)
        (λ m _. inl (m, refl))

  -- `stopAllWorkers` stops every worker and leaves none in the engine, unless a stop panics.
  pub stop_all_workers-cases :
      (s : Sys env)
      → ((m : String) × ((stop_all_workers env s).0 ≡ panic m))
        ⊎ (((stop_all_workers env s).0 ≡ ok tt)
            × ((stop_all_workers env s).1.engine.workers ≡ [])
            × ((stop_all_workers env s).1.chain.world ≡ stopped s.engine.workers s.chain.world))
  unfolding stop_all_workers
  stop_all_workers-cases s =
      let P : Result (Unit {0}) × Sys env → Type 0 = λ out.
        ((m : String) × (out.0 ≡ panic m))
        ⊎ ((out.0 ≡ ok tt)
            × (out.1.engine.workers ≡ [])
            × (out.1.chain.world ≡ stopped s.engine.workers s.chain.world)) in
      let m = stop_each env s.engine.workers in
      resume_rule P (m s).0 _ _ (m s).1
        (λ u h. elim (stop_each-stops s.engine.workers s) [
          | inl (p, e) ↦ absurd (not_both h e)
          | inr all ↦ inr (refl, refl, all)
        ])
        (λ e h. absurd (stop_each-NoError s.engine.workers s e h)) (λ p _. inl (p, refl))
