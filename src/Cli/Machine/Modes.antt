-- ===== src/Cli/Machine/Modes.antt =====
-- internal/cli and internal/config: the wallet mode of a configuration that was loaded.
use hash256_miner.Base.{
  arith, ◌≡◌, ◌≢◌, ◌⊎◌, inl, inr, true, none, some, Bytes, codes, text_eq, ok, Exec, lift, wrapping,
  pure, ◌>>=◌, >>=-ok, Bool-cases,
}
use hash256_miner.Config.{Config, is_wallet_mode, load}
use hash256_miner.Config.Defaults.{accepted}
use hash256_miner.Wallet.Keystore.{load_keystore}
use hash256_miner.Wallet.MnemonicStore.{load_mnemonic_encrypted}
use hash256_miner.Wallet.Manager.{load_single, load_multi}
use hash256_miner.Cli.Machine.{Machine, envelope_lib, load_config, load_wallet}

known_mode :
    (mode : Bytes)
    → is_wallet_mode mode ≡ true
    → (text_eq mode (codes "single") ≡ true) ⊎ (text_eq mode (codes "multi") ≡ true)
unfolding is_wallet_mode
known_mode mode h = ground arith

module _ (m : Machine) where
  open m use {env, files, cipher, keystore, hd}
  open env use {fl, net}
  open net use {W, Address, Key}

  load_config-mode :
      (path : Bytes) (w : W) {cfg : Config fl.F}
      → (load_config m path w).0 ≡ ok cfg
      → is_wallet_mode cfg.wallet.mode ≡ true
  unfolding load_config load
  load_config-mode path w h =
      let (p, _, h₁) = >>=-ok (wrapping "resolve config path: %w" (m.abs_path path)) _ w h in
      let (text, _, h₂) = >>=-ok (wrapping "read config %s: %w" (files.read_file p)) _ _ h₁ in
      let (c, _, h₃) = >>=-ok (wrapping "decode toml: %w" (lift (m.decode_toml text))) _ _ h₂ in
      let (e, _, _, known) = accepted fl c h₃ in rw e known

  some_wallet :
      {A B : Type 0} (load : Exec W A) (f : A → B) (w : W)
      → ((do a ← load; pure (some (f a))) w).0 ≢ ok none
  some_wallet load f w = λ h. let (a, _, e) = >>=-ok load (λ a. pure (some (f a))) w h in cc

  -- With a configuration that `Load` returned the switch on the wallet mode never falls through, so
  -- `runWalletBalance`, which has no default case, does not use a nil manager.
  load_wallet-known :
      (path pass : Bytes) (v w : W) {cfg : Config fl.F}
      → (load_config m path v).0 ≡ ok cfg
      → (load_wallet m cfg pass w).0 ≢ ok none
  unfolding load_wallet
  load_wallet-known path pass v w {cfg} h =
      elim (Bool-cases (text_eq cfg.wallet.mode (codes "single"))) [
        | inl single ↦ rw single (
            some_wallet (load_single (load_keystore keystore files cfg.wallet.keystore pass))
              (λ wm. wm) w)
        | inr other ↦ rw other (elim (known_mode cfg.wallet.mode (load_config-mode path v h)) [
          | inl single ↦ absurd cc
          | inr multi ↦ rw multi (
              some_wallet
                (load_multi hd
                  (load_mnemonic_encrypted cipher (envelope_lib m) files cfg.wallet.mnemonic_file
                    pass)
                  cfg.wallet.accounts)
                (λ wm. wm) w)
        ])
      ]
