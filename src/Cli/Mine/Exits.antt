-- ===== src/Cli/Mine/Exits.antt =====
-- internal/cli/mine.go: what has happened when `runMineStart` returns nil.
use hash256_miner.Base.{
  ℕ, ◌≡◌, ◌≢◌, refl, true, Bool-cases, inl, inr, Option, List, Bytes, Err, Result, ok, err, panic,
  after_defer, >>=-ok,
}
use hash256_miner.Config.{Config}
use hash256_miner.Chain.Client as Chain
use hash256_miner.Chain.Client.{Net}
use hash256_miner.Chain.Abi.{Hash256Abi}
use hash256_miner.Chain.Submitter.{new_submitter}
use hash256_miner.Wallet.Manager.{Manager}
use hash256_miner.Orchestrator.Engine.{Miner, Sys}
use hash256_miner.Orchestrator.Run.{Tick, miners_from, new_engine, run}
use hash256_miner.Orchestrator.Run.Ends.{
  Ended, no_state, no_workers, panicked, cancelled, run-Ended,
}
use hash256_miner.Cli.Machine.{Machine}
use hash256_miner.Cli.Mine.{
  main_cell, build_chain, build_submit_client, resolve_core_binary, unlock, is_shutdown, finish,
  run_engine, mine, run_mine_start,
}

after_defer-ok :
    {A : Type 0} (r : Result A) (fin : Result (Unit {0})) {a : A}
    → after_defer r fin ≡ ok a
    → r ≡ ok a
after_defer-ok r (ok u) h = h
after_defer-ok r (err e) h = h
after_defer-ok r (panic s) h = cc

module _ (m : Machine) where
  open m use {env, files}
  open env use {fl, net, lib}
  open fl use {F}
  open net use {W, Ctx, Conn, Address, Key}

  -- The state in which `runMineStart` starts the engine.
  abbrev pub engine_at :
      Config F → Manager Address Key → Hash256Abi lib → Option ℕ → Bytes → Net W Conn → Sys env
  engine_at cfg wm abi submit core_bin s = record {
    engine =
        new_engine env cfg (record { client = main_cell; abi = abi })
          (new_submitter fl net lib main_cell submit abi (s.client main_cell).chain_id
            cfg.mining.gas_limit_floor cfg.mining.gas_limit_ceiling
            cfg.mining.gas_limit_safety_mult)
          wm core_bin;
    chain = s;
  }

  finish-ok :
      (r : Result (Unit {0}))
      → ((u : Unit {0}) → r ≢ ok u)
      → finish m r ≡ ok tt
      → (e : Err) × (r ≡ err e) × (is_shutdown m e ≡ true)
  unfolding finish
  finish-ok (ok u) none_ok h = absurd (none_ok u refl)
  finish-ok (err e) none_ok h = elim (Bool-cases (is_shutdown m e)) [
    | inl b ↦ (e, refl, b)
    | inr b ↦ let h' = rw b at h in cc
  ]
  finish-ok (panic s) none_ok h = cc

  Ended-not_ok :
      {ctx : Ctx} {miners : List (Miner Address Key)} {ticks : List Tick} {s : Sys env}
      {out : Result (Unit {0}) × Sys env}
      → Ended env ctx miners ticks s out
      → (u : Unit {0}) → out.0 ≢ ok u
  Ended-not_ok (no_state h) u = λ q. cc
  Ended-not_ok (no_workers h k) u = λ q. cc
  Ended-not_ok (panicked p) u = λ q. cc
  Ended-not_ok (cancelled a b starts c d) u = λ q. cc

  -- The wallet was opened, the clients were built, the worker binary was found, and the engine was run
  -- until an error that is a cancellation.
  pub record Mined (ctx : Ctx) (path : Bytes) (ticks : List Tick) (s : Net W Conn) : Type 0 where
    pub cfg : Config F
    pub wm : Manager Address Key
    pub opened : (unlock m path s).0 ≡ ok (cfg, wm)
    pub abi : Hash256Abi lib
    pub built : (build_chain m ctx cfg (unlock m path s).1).0 ≡ ok abi
    pub submit : Option ℕ
    pub at_submit : Net W Conn
    pub submit_built : (build_submit_client m ctx cfg at_submit).0 ≡ ok submit
    pub core_bin : Bytes
    pub at_find : W
    pub found : (resolve_core_binary m cfg at_find).0 ≡ ok core_bin
    pub at_run : Net W Conn
    pub cause : Err
    pub ended :
        (run env
          (m.signal_context ctx at_run.world)
          (miners_from 0 wm.accounts)
          ticks
          (engine_at cfg wm abi submit core_bin at_run)).0
        ≡ err cause
    pub cancels : is_shutdown m cause ≡ true

  -- `runMineStart` returns nil only if the wallet was opened, both clients were built, the worker
  -- binary was found, and the engine ran until an error that is `context.Canceled`.
  pub run_mine_start-Mined :
      (ctx : Ctx) (path : Bytes) (ticks : List Tick) (s : Net W Conn)
      → (run_mine_start m ctx path ticks s).0 ≡ ok tt
      → Mined ctx path ticks s
  unfolding run_mine_start mine run_engine
  run_mine_start-Mined ctx path ticks s h =
      let ((cfg, wm), opened, h₁) = >>=-ok (unlock m path) _ s h in
      let s₁ = (unlock m path s).1 in
      let h₂ = after_defer-ok (mine m ctx cfg wm ticks s₁).0 _ h₁ in
      let (abi, built, h₃) = >>=-ok (build_chain m ctx cfg) _ s₁ h₂ in
      let s₂ = (build_chain m ctx cfg s₁).1 in
      let h₄ = after_defer-ok _ _ h₃ in
      let (submit, submit_built, h₅) = >>=-ok (build_submit_client m ctx cfg) _ s₂ h₄ in
      let s₃ = (build_submit_client m ctx cfg s₂).1 in
      let h₆ = after_defer-ok _ _ h₅ in
      let (core_bin, found, h₇) = >>=-ok (Chain.on_world net (resolve_core_binary m cfg)) _ s₃ h₆ in
      let s₄ = (Chain.on_world net (resolve_core_binary m cfg) s₃).1 in
      let sys = engine_at cfg wm abi submit core_bin s₄ in
      let signals = m.signal_context ctx s₄.world in
      let (cause, ended, cancels) =
        finish-ok _ (Ended-not_ok (run-Ended env signals (miners_from 0 wm.accounts) ticks sys))
          h₇ in
      record {
        cfg = cfg;
        wm = wm;
        opened = opened;
        abi = abi;
        built = built;
        submit = submit;
        at_submit = s₂;
        submit_built = submit_built;
        core_bin = core_bin;
        at_find = s₃.world;
        found = found;
        at_run = s₄;
        cause = cause;
        ended = ended;
        cancels = cancels;
      }
