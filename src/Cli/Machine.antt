-- ===== src/Cli/Machine.antt =====
-- What the commands take from elsewhere, and the parts that they share: the configuration, the passphrase
-- and the wallet. The private numbers stand in the world, and a key points to its number.
pub mod Modes
use hash256_miner.Base.{
  ℕ, Bool, true, Option, none, some, List, Bytes, codes, text_eq, String, Err, errorf, Result, ok,
  err, panic, Exec, pure, fail, lift, ◌>>=◌, map, if◌then◌else◌, ℤ,
}
use hash256_miner.Config.{Config, load}
use hash256_miner.Wallet.Crypto.{Cipher}
use hash256_miner.Wallet.Hd.{HdLib}
use hash256_miner.Wallet.Keystore.{KeystoreLib, Files, load_keystore}
use hash256_miner.Wallet.MnemonicStore.{EncryptedEnvelope, EnvelopeLib, load_mnemonic_encrypted}
use hash256_miner.Wallet.Passphrase.{Os, resolve}
use hash256_miner.Wallet.Manager.{Account, Manager, KeyHeap, load_single, load_multi, wipe}
use hash256_miner.Orchestrator.Engine.{Env}

pub record Machine : Type 1 where
  pub env : Env
  pub os : Os env.net.W
  pub files : Files env.net.W
  pub stat : Bytes → Exec env.net.W (Unit {0})  -- os.Stat, an error where there is no file
  pub mkdir_all : Bytes → Exec env.net.W (Unit {0})
  pub abs_path : Bytes → Exec env.net.W Bytes
  pub decode_toml : Bytes → Result (Config env.fl.F)
  pub cipher : Cipher
  pub keystore : KeystoreLib env.net.Address env.net.Key
  pub hd : HdLib env.net.Address env.net.Key
  pub marshal : EncryptedEnvelope → Result Bytes
  pub unmarshal : Bytes → Result EncryptedEnvelope
  pub random : ℕ → Exec env.net.W Bytes  -- crypto/rand.Read
  pub new_entropy : ℕ → Exec env.net.W Bytes
  pub generate_key : Exec env.net.W env.net.Key
  pub key_hex : env.net.Key → Bytes  -- `%064x` of the private number
  pub hex_to_ecdsa : Bytes → Result env.net.Key
  pub eth_text : ℕ → Bytes  -- big.Float: the quotient by 1e18, with six decimals
  pub scan_int : Bytes → Result ℤ  -- fmt.Sscanf with `%d`
  pub signal_context : env.net.Ctx → env.net.W → env.net.Ctx  -- done also at an interrupt
  pub is_canceled : String → Bool  -- the error of another package is context.Canceled
  pub key_ptr : env.net.Key → Option ℕ
  pub heap_of : env.net.W → KeyHeap
  pub set_heap : KeyHeap → env.net.W → env.net.W

module _ (m : Machine) where
  open m use {env, os, files, cipher, keystore, hd}
  open env use {fl, net}
  open net use {W, Address, Key}

  -- `encoding/json` and bip39, as the mnemonic store takes them.
  abbrev pub envelope_lib : EnvelopeLib
  envelope_lib = record {
    marshal = m.marshal;
    unmarshal = m.unmarshal;
    mnemonic_valid = hd.mnemonic_valid;
  }

  unfoldable pub load_config : Bytes → Exec W (Config fl.F)
  load_config = load fl m.abs_path files.read_file m.decode_toml

  -- `resolveWalletPassphrase`
  unfoldable pub resolve_wallet_passphrase : Config fl.F → Bytes → Exec W Bytes
  resolve_wallet_passphrase cfg prompt = resolve os (record {
    env_var = cfg.wallet.passphrase_env;
    file = cfg.wallet.passphrase_file;
    interactive = true;
    prompt = prompt;
  })

  -- The switch on `cfg.Wallet.Mode`; `none` is the way without a case.
  unfoldable pub load_wallet : Config fl.F → Bytes → Exec W (Option (Manager Address Key))
  load_wallet cfg pass =
      if text_eq cfg.wallet.mode (codes "single")
      then (do
        wm ← load_single (load_keystore keystore files cfg.wallet.keystore pass)
        pure (some wm))
      else if text_eq cfg.wallet.mode (codes "multi")
      then (do
        wm ←
            load_multi hd
              (load_mnemonic_encrypted cipher envelope_lib files cfg.wallet.mnemonic_file pass)
              cfg.wallet.accounts
        pure (some wm))
      else pure none

  -- The accounts as `Wipe` sees them.
  pub pointers : Manager Address Key → Manager Address (Option ℕ)
  pointers wm = record {
    mode = wm.mode;
    accounts =
        map
          (λ a. record {
            address = a.address;
            private_key = m.key_ptr a.private_key;
            path = a.path;
            index = a.index;
          })
          wm.accounts;
  }

  -- `(*Manager).Wipe`
  unfoldable pub wipe_wallet : Manager Address Key → Exec W (Unit {0})
  unfolding pointers
  wipe_wallet wm w = (ok tt, m.set_heap (wipe (pointers wm) (m.heap_of w)) w)
