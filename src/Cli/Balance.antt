-- ===== src/Cli/Balance.antt =====
-- internal/cli/wallet.go: `wallet list` and `wallet balance`. The commands return what they print.
pub mod Lines
use hash256_miner.Base.{
  ℕ, Bool, true, false, Option, none, some, List, [], ◌∷◌, Bytes, codes, text_eq, Err, errorf,
  Result, ok, err, panic, Exec, pure, fail, crash, lift, handle, wrapping, deferring, ◌>>=◌, ◌>>◌,
  if◌then◌else◌, ℤ,
}
use hash256_miner.Config.{Config}
use hash256_miner.Chain.Client as Chain
use hash256_miner.Chain.Client.{M, close_client}
use hash256_miner.Chain.Client.Calls.{balance_of}
use hash256_miner.Wallet.Keystore.{peek_keystore_address}
use hash256_miner.Wallet.Manager.{Account, Manager}
use hash256_miner.Orchestrator.Engine.{Env}
use hash256_miner.Cli.Machine.{
  Machine, load_config, resolve_wallet_passphrase, load_wallet, wipe_wallet,
}
use hash256_miner.Cli.Mine.{main_cell, build_chain}

-- The lines of `wallet list`: the keystore's address, or the file and the number of accounts.
pub data Listing (Address : Type 0) : Type 0 where
  keystore : Address → Bytes → Listing Address
  mnemonic : Bytes → ℤ → Listing Address

-- A line of `wallet balance`: the index, the address, and the text of the balance or the error.
pub record Line (Address : Type 0) : Type 0 where
  pub index : ℕ
  pub address : Address
  pub balance : Result Bytes

module _ (m : Machine) where
  open m use {env, files}
  open env use {fl, net}
  open fl use {F}
  open net use {W, Ctx, Address, Key}

  -- `weiToEthStr`; a nil number is `none`.
  pub wei_to_eth_str : Option ℕ → Bytes
  wei_to_eth_str none = codes "0"
  wei_to_eth_str (some w) = m.eth_text w

  -- The switch of `runWalletList`.
  pub list_wallet : Config F → Exec W (Listing Address)
  list_wallet cfg =
      if text_eq cfg.wallet.mode (codes "single")
      then (do
        addr ← peek_keystore_address m.keystore files cfg.wallet.keystore
        pure (keystore addr cfg.wallet.keystore))
      else if text_eq cfg.wallet.mode (codes "multi")
      then pure (mnemonic cfg.wallet.mnemonic_file cfg.wallet.accounts)
      else fail (errorf "unknown wallet mode %q")

  -- `runWalletList`
  pub run_wallet_list : Bytes → Exec W (Listing Address)
  unfolding list_wallet
  run_wallet_list path = do cfg ← load_config m path; list_wallet cfg

  -- The loop over the accounts. `contextWithShortTimeout` gives the parent with a cancel function,
  -- which is called behind the request.
  pub balances : Ctx → List (Account Address Key) → M net (List (Line Address))
  unfolding wei_to_eth_str
  balances ctx [] = pure []
  balances ctx (a ∷ accounts) = do
    bal ←
        handle (balance_of net ctx main_cell a.address) (λ b. pure (ok (wei_to_eth_str (some b))))
          (λ e. pure (err e))
    rest ← balances ctx accounts
    pure (record { index = a.index; address = a.address; balance = bal } ∷ rest)

  -- The chain and the lines, behind the wallet.
  pub print_balances : Ctx → Config F → Manager Address Key → M net (List (Line Address))
  unfolding balances
  print_balances ctx cfg wm = do
    _ ← build_chain m ctx cfg
    deferring (close_client net main_cell) (balances ctx wm.accounts)

  -- The rest of `runWalletBalance` behind the switch, which leaves `wm` nil at an unknown mode; the methods
  -- of a nil manager read its accounts.
  pub with_wallet : Ctx → Config F → Option (Manager Address Key) → M net (List (Line Address))
  unfolding print_balances
  with_wallet ctx cfg none = deferring (crash "nil pointer dereference") (do
    _ ← build_chain m ctx cfg
    deferring (close_client net main_cell) (crash "nil pointer dereference"))
  with_wallet ctx cfg (some wm) =
      deferring (Chain.on_world net (wipe_wallet m wm)) (print_balances ctx cfg wm)

  -- `runWalletBalance`
  pub run_wallet_balance : Ctx → Bytes → M net (List (Line Address))
  unfolding with_wallet
  run_wallet_balance ctx path = do
    cfg ← Chain.on_world net (load_config m path)
    pass ← Chain.on_world net (resolve_wallet_passphrase m cfg (codes "passphrase: "))
    wm ← Chain.on_world net (load_wallet m cfg pass)
    with_wallet ctx cfg wm
