-- ===== src/Cli/Mine.antt =====
-- internal/cli/mine.go: `mine start` and `mine status`. The reader's client is the cell 0 and the submit
-- client the cell 1. Log lines and output are left out.
pub mod Wiped
pub mod Closed
pub mod Exits
pub mod Timeout
use hash256_miner.Base.{
  ℕ, Bool, true, false, Option, none, some, List, [], ◌∷◌, Bytes, codes, String, Err, errorf, wrap,
  foreign, Result, ok, err, panic, Exec, pure, fail, lift, handle, wrapping, deferring, ◌>>=◌, ◌>>◌,
  if◌then◌else◌, ℤ, pos,
}
use hash256_miner.Std.Duration.{milliseconds, is_shorter, seconds_10}
use hash256_miner.Config.{Config}
use hash256_miner.Chain.Client as Chain
use hash256_miner.Chain.Client.{Net, M, get, new_client, new_submit_only_client, close_client}
use hash256_miner.Chain.Abi.{Hash256Abi, MiningState, GenesisState, load_abi_from_file}
use hash256_miner.Chain.Reader.{Reader, genesis_state, mining_state}
use hash256_miner.Chain.Submitter.{new_submitter}
use hash256_miner.Wallet.Manager.{Manager}
use hash256_miner.Orchestrator.Run.{Tick, miners_from, new_engine, run}
use hash256_miner.Cli.Machine.{
  Machine, load_config, resolve_wallet_passphrase, load_wallet, wipe_wallet,
}

abbrev pub main_cell : ℕ
main_cell = 0

abbrev pub submit_cell : ℕ
submit_cell = 1

module _ (m : Machine) where
  open m use {env, files}
  open env use {fl, net, lib}
  open fl use {F}
  open net use {W, Ctx, Conn, Address, Key}

  -- `buildChain`; the client is left in its cell.
  unfoldable pub build_chain : Ctx → Config F → M net (Hash256Abi lib)
  build_chain ctx cfg = do
    wrapping "rpc: %w" (
        new_client net ctx main_cell cfg.rpc.endpoints cfg.rpc.chain_id
          (milliseconds cfg.rpc.request_timeout_ms))
    wrapping "abi: %w" (
        Chain.on_world net (
          load_abi_from_file lib files.read_file (codes "contracts/abi/hash256.json")
            cfg.contract.address))

  -- The timeout of the submit client, at least ten seconds.
  pub submit_timeout : Config F → ℤ
  submit_timeout cfg =
      let t = milliseconds cfg.rpc.request_timeout_ms in
      if is_shorter t seconds_10 then pos seconds_10 else t

  unfoldable pub new_submit : Ctx → Config F → List Bytes → M net (Option ℕ)
  new_submit ctx cfg [] = pure none
  new_submit ctx cfg (u ∷ us) = do
    wrapping "submit rpc: %w"
        (new_submit_only_client net ctx submit_cell (u ∷ us) cfg.rpc.chain_id (submit_timeout cfg))
    pure (some submit_cell)

  -- `buildSubmitClient`; a nil client is `none`.
  unfoldable pub build_submit_client : Ctx → Config F → M net (Option ℕ)
  unfolding new_submit
  build_submit_client ctx cfg = new_submit ctx cfg cfg.rpc.submit_endpoints

  -- The loop over the candidates.
  unfoldable pub find_binary : List Bytes → Exec W Bytes
  find_binary [] =
      fail (errorf "core binary not found; run `make build-rust` or set miner.core_binary")
  find_binary (c ∷ candidates) = handle (m.stat c) (λ _. pure c) (λ _. find_binary candidates)

  unfoldable pub configured_or : Bytes → Exec W Bytes → Exec W Bytes
  configured_or [] next = next
  configured_or (c ∷ s) next = pure (c ∷ s)

  -- `resolveCoreBinary`
  unfoldable pub resolve_core_binary : Config F → Exec W Bytes
  unfolding find_binary configured_or
  resolve_core_binary cfg = configured_or cfg.miner.core_binary (
      find_binary (
        codes "./bin/hash256-miner-core"
        ∷ codes "./miner-core/target/release/hash256-miner-core"
        ∷ []))

  -- The default case of the switch.
  unfoldable pub known_wallet : Option (Manager Address Key) → Result (Manager Address Key)
  known_wallet none = err (errorf "unknown wallet mode %q")
  known_wallet (some wm) = ok wm

  -- The steps of `runMineStart` up to the loaded wallet.
  unfoldable pub unlock : Bytes → M net (Config F × Manager Address Key)
  unfolding known_wallet
  unlock path = do
    cfg ← Chain.on_world net (load_config m path)
    pass ← Chain.on_world net (resolve_wallet_passphrase m cfg (codes "passphrase: "))
    found ← Chain.on_world net (load_wallet m cfg pass)
    wm ← lift (known_wallet found)
    pure (cfg, wm)

  -- `errors.Is(err, context.Canceled)`
  unfoldable pub is_shutdown : Err → Bool
  is_shutdown (errorf s) = false
  is_shutdown (wrap s e) = is_shutdown e
  is_shutdown (foreign s) = m.is_canceled s

  unfoldable pub finish : Result (Unit {0}) → Result (Unit {0})
  finish (ok u) = ok tt
  finish (err e) = if is_shutdown e then ok tt else err e
  finish (panic s) = panic s

  -- The engine from its parts, and its run until the context is done, at a signal too.
  unfoldable pub run_engine :
      Ctx
      → Config F
      → Manager Address Key
      → Hash256Abi lib
      → Option ℕ
      → Bytes
      → List Tick
      → M net (Unit {0})
  unfolding finish
  run_engine ctx cfg wm abi submit core_bin ticks s =
      let sub =
        new_submitter fl net lib main_cell submit abi (s.client main_cell).chain_id
          cfg.mining.gas_limit_floor cfg.mining.gas_limit_ceiling
          cfg.mining.gas_limit_safety_mult in
      let e = new_engine env cfg (record { client = main_cell; abi = abi }) sub wm core_bin in
      let r =
        run env (m.signal_context ctx s.world) (miners_from 0 wm.accounts) ticks
          (record { engine = e; chain = s }) in
      (finish r.0, r.1.chain)

  unfoldable pub close_submit : Option ℕ → M net (Unit {0})
  close_submit none = pure tt
  close_submit (some p) = close_client net p

  -- The rest of `runMineStart`, behind the wallet, with the deferred calls of `Close`.
  unfoldable pub mine : Ctx → Config F → Manager Address Key → List Tick → M net (Unit {0})
  unfolding close_submit
  mine ctx cfg wm ticks = do
    abi ← build_chain ctx cfg
    deferring (close_client net main_cell) (do
      submit ← build_submit_client ctx cfg
      deferring (close_submit submit) (do
        core_bin ← Chain.on_world net (resolve_core_binary cfg)
        run_engine ctx cfg wm abi submit core_bin ticks))

  -- `runMineStart`
  unfoldable pub run_mine_start : Ctx → Bytes → List Tick → M net (Unit {0})
  run_mine_start ctx path ticks = do
    opened ← unlock path
    deferring (Chain.on_world net (wipe_wallet m opened.1)) (mine ctx opened.0 opened.1 ticks)

  -- `runMineStatus`: the two states that are printed.
  pub run_mine_status : Ctx → Bytes → M net (GenesisState × MiningState)
  run_mine_status ctx path = do
    cfg ← Chain.on_world net (load_config m path)
    abi ← build_chain ctx cfg
    deferring (close_client net main_cell) (do
      status_ctx ← (λ s. (ok (net.with_timeout ctx (pos 8000000000) s.world), s))
      gs ← genesis_state net lib status_ctx (record { client = main_cell; abi = abi })
      ms ← mining_state net lib status_ctx (record { client = main_cell; abi = abi })
      pure (gs, ms))
