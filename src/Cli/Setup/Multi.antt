-- ===== src/Cli/Setup/Multi.antt =====
-- internal/cli/wallet.go: the mnemonic that `runInitMulti` leaves.
use hash256_miner.Base.{◌≡◌, Bool, List, map, Bytes, codes, ok, ℤ}
use hash256_miner.Wallet.Hd.{HdAccount}
use hash256_miner.Wallet.Manager.{multi, load_multi, account_of}
use hash256_miner.Wallet.MnemonicStore.{load_mnemonic_encrypted}
use hash256_miner.Wallet.Passphrase.{prompt_password_confirm}
use hash256_miner.Cli.Prompt.{Session}
use hash256_miner.Cli.Machine.{Machine, envelope_lib}
use hash256_miner.Cli.Setup.Answers.{Overwrites, Origin, Entered}
use hash256_miner.Cli.Setup.{mnemonic_path}

module _ (m : Machine) where
  open m use {env, os, files, cipher, hd}
  open env use {net}
  open net use {W, Address, Key}

  -- The input in front of the mnemonic and behind it, the mnemonic, the number of accounts that is
  -- entered, the passphrase that was typed twice, and the wallet that they open.
  pub record Restored (importing : Bool) (s : Session W) (accounts : List (HdAccount hd)) (w : W)
      : Type 0 where
    pub before : Session W
    pub overwrites : Overwrites m mnemonic_path s before
    pub mnemonic : Bytes
    pub behind : Session W
    pub origin : Origin m importing before mnemonic behind
    pub answer : Bytes
    pub entered : Entered behind.input answer
    pub count : ℤ
    pub counted : m.scan_int answer ≡ ok count
    pub pass : Bytes
    pub confirmed :
        (prompt_password_confirm os (codes "│ new passphrase: ") behind.world).0 ≡ ok pass
    pub stored :
        (load_mnemonic_encrypted cipher (envelope_lib m) files mnemonic_path pass w).0 ≡ ok mnemonic
    pub loads :
        (load_multi hd
          (load_mnemonic_encrypted cipher (envelope_lib m) files mnemonic_path pass)
          count
          w).0
        ≡ ok (record { mode = multi; accounts = map (account_of hd) accounts })
