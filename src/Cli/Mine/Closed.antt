-- ===== src/Cli/Mine/Closed.antt =====
-- internal/cli/mine.go: the connections when `runMineStart` is done with them.
use hash256_miner.Base.{ℕ, ◌≡◌, refl, Option, none, some, List, ok, deferring, ◌>>=◌}
use hash256_miner.Config.{Config}
use hash256_miner.Chain.Client as Chain
use hash256_miner.Chain.Client.{Net, M, close_active, close_client}
use hash256_miner.Chain.Client.Failover.{close_client-active}
use hash256_miner.Chain.Abi.{Hash256Abi}
use hash256_miner.Wallet.Manager.{Manager}
use hash256_miner.Orchestrator.Run.{Tick}
use hash256_miner.Cli.Machine.{Machine}
use hash256_miner.Cli.Mine.{
  build_chain, build_submit_client, resolve_core_binary, run_engine, close_submit, mine, main_cell,
}

module _ (m : Machine) where
  open m use {env}
  open env use {fl, net, lib}
  open net use {W, Ctx, Conn, Address, Key}

  -- What `runMineStart` does between the chain client and its `Close`.
  abbrev pub with_chain :
      Ctx → Config fl.F → Manager Address Key → List Tick → Hash256Abi lib → M net (Unit {0})
  with_chain ctx cfg wm ticks abi = do
    submit ← build_submit_client m ctx cfg
    deferring (close_submit m submit) (do
      core_bin ← Chain.on_world net (resolve_core_binary m cfg)
      run_engine m ctx cfg wm abi submit core_bin ticks)

  -- The world behind the closing of the connection, where there is one.
  abbrev pub after_close : Option Conn → W → W
  after_close live w = elim live [ none ↦ w | some r ↦ net.close r w ]

  close_active-closes :
      (live : Option Conn) (s : Net W Conn)
      → close_active net live s ≡ (ok tt, record s { world = after_close live s.world })
  unfolding close_active
  close_active-closes none s = refl
  close_active-closes (some r) s = refl

  close_client-closes :
      (p : ℕ) (s : Net W Conn)
      → (close_client net p s).1.world ≡ after_close (s.client p).active s.world
  unfolding close_client
  close_client-closes p s = rw (close_active-closes (s.client p).active s) refl

  -- Once `runMineStart` has built its chain client, the connection that this client holds when the
  -- rest of the command is done is closed, as the last thing that is done, and the client holds
  -- none, also when the submit client or the worker binary is missing, the engine fails, or a call
  -- panics.
  pub mine-closes :
      (ctx : Ctx) (cfg : Config fl.F) (wm : Manager Address Key) (ticks : List Tick)
      (s : Net W Conn) {abi : Hash256Abi lib}
      → (build_chain m ctx cfg s).0 ≡ ok abi
      → (((mine m ctx cfg wm ticks s).1.client main_cell).active ≡ none)
        × ((mine m ctx cfg wm ticks s).1.world
            ≡ after_close
                ((with_chain ctx cfg wm ticks abi (build_chain m ctx cfg s).1).1.client
                  main_cell).active
                (with_chain ctx cfg wm ticks abi (build_chain m ctx cfg s).1).1.world)
  unfolding mine
  mine-closes ctx cfg wm ticks s {abi} built =
      rw built (close_client-active net main_cell _, close_client-closes main_cell _)
