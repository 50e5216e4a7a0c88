-- ===== src/Orchestrator/Loop/Invariant.antt =====
-- internal/orchestrator/engine.go: the map of submitted nonces along `handleWorkerEvents`.
use hash256_miner.Base.{ℕ, List, [], ◌∷◌, codes, text_eq, Result, resume_rule, Bool-cases, inl, inr}
use hash256_miner.Orchestrator.Protocol.{WorkerEvent}
use hash256_miner.Orchestrator.Engine.{Env, Miner, Sys}
use hash256_miner.Orchestrator.Found.{on_found}
use hash256_miner.Orchestrator.Found.Once.{Distinct, on_found-Distinct}
use hash256_miner.Orchestrator.Loop.{on_progress, handle_event, handle_worker_events}

module _ (env : Env) where
  open env use {fl, net}
  open fl use {F}
  open net use {Ctx, Address, Key}

  abbrev Kept : {A : Type 0} → Result A × Sys env → Type 0
  Kept out = Distinct out.1.engine.submitted

  handle_event-Distinct :
      (ctx : Ctx) (acc : Miner Address Key) (w : ℕ) (ev : WorkerEvent F) (s : Sys env)
      → Distinct s.engine.submitted
      → Kept (handle_event env ctx acc w ev s)
  unfolding handle_event on_progress
  handle_event-Distinct ctx acc w ev s h = elim (Bool-cases (text_eq ev.event (codes "progress"))) [
    | inl a ↦ rw a h
    | inr a ↦ rw a (elim (Bool-cases (text_eq ev.event (codes "found"))) [
      | inl b ↦ rw b (
          resume_rule Kept (on_found env ctx acc w ev s).0 _ _ (on_found env ctx acc w ev s).1
            (λ _ _. on_found-Distinct env ctx acc w ev s h)
            (λ _ _. on_found-Distinct env ctx acc w ev s h)
            (λ _ _. on_found-Distinct env ctx acc w ev s h))
      | inr b ↦ rw b h
    ])
  ]

  -- Whatever events a worker sends, and whatever goes wrong at each, no key enters the map of
  -- submitted nonces twice: keys that are distinct before are distinct after.
  pub handle_worker_events-Distinct :
      (ctx : Ctx) (acc : Miner Address Key) (w : ℕ) (evs : List (WorkerEvent F)) (s : Sys env)
      → Distinct s.engine.submitted
      → Distinct (handle_worker_events env ctx acc w evs s).1.engine.submitted
  unfolding handle_worker_events
  handle_worker_events-Distinct ctx acc w [] s h = h
  handle_worker_events-Distinct ctx acc w (ev ∷ evs) s h =
      let s' = (handle_event env ctx acc w ev s).1 in
      let h' = handle_event-Distinct ctx acc w ev s h in
      resume_rule Kept (handle_event env ctx acc w ev s).0 _ _ s'
        (λ _ _. handle_worker_events-Distinct ctx acc w evs s' h') (λ _ _. h') (λ _ _. h')
