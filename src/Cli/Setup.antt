-- ===== src/Cli/Setup.antt =====
-- internal/cli/wallet.go: `wallet init`. The standard input and the world are a session; the passphrases
-- come from the terminal. What is printed is left out.
pub mod Answers
pub mod Single
pub mod Multi
pub mod Mnemonic
use hash256_miner.Base.{
  ℕ, Bool, true, false, not, Option, none, some, List, [], ◌∷◌, Bytes, codes, text_eq, trim_0x,
  trim_space, String, Err, errorf, wrap, Result, ok, err, panic, Exec, pure, fail, lift, handle,
  wrapping, ◌>>=◌, ◌>>◌, if◌then◌else◌, ℤ, is_positive,
}
use hash256_miner.Wallet.Hd.{HdAccount, generate_mnemonic, derive_accounts}
use hash256_miner.Wallet.Keystore.{save_keystore}
use hash256_miner.Wallet.MnemonicStore.{save_mnemonic_encrypted}
use hash256_miner.Wallet.Passphrase.{prompt_password_confirm}
use hash256_miner.Orchestrator.Engine.{Env}
use hash256_miner.Cli.Prompt.{Session, read_string, in_session, ask_choice, ask_string, ask_yes_no}
use hash256_miner.Cli.Machine.{Machine, envelope_lib}

abbrev pub keystore_path : Bytes
keystore_path = codes "data/wallets/main.keystore"

abbrev pub mnemonic_path : Bytes
mnemonic_path = codes "data/wallets/mnemonic.enc"

-- `[]string{"1", "2"}`
abbrev one_or_two : List Bytes
one_or_two = codes "1" ∷ codes "2" ∷ []

-- The text of a pasted private key.
unfoldable pub private_digits : Bytes → Bytes
private_digits line = trim_space (trim_0x (trim_space line))

module _ (m : Machine) where
  open m use {env, os, files, cipher, keystore, hd}
  open env use {net}
  open net use {W, Address, Key}

  -- The question in front of a file that exists.
  unfoldable pub may_overwrite : Bytes → Exec (Session W) (Unit {0})
  may_overwrite path =
      handle (in_session (m.stat path))
        (λ _. do answer ← ask_yes_no false; if answer then pure tt else fail (errorf "cancelled"))
        (λ _. pure tt)

  -- The private key's text, pasted or made.
  unfoldable pub private_text : Bool → Exec (Session W) Bytes
  unfolding private_digits
  private_text true = do line ← read_string; pure (private_digits line)
  private_text false = do
    key ← in_session (wrapping "gen key: %w" m.generate_key)
    pure (m.key_hex key)

  -- `runInitSingle`; the address is the one that is printed.
  unfoldable pub run_init_single : Bool → Exec (Session W) Address
  unfolding may_overwrite private_text
  run_init_single importing = do
    may_overwrite keystore_path
    priv ← private_text importing
    pass ← in_session (prompt_password_confirm os (codes "│ new passphrase: "))
    key ← in_session (wrapping "parse key: %w" (lift (m.hex_to_ecdsa priv)))
    in_session (save_keystore keystore files m.random keystore_path key pass)

  -- The mnemonic, pasted or made.
  unfoldable pub mnemonic_text : Bool → Exec (Session W) Bytes
  mnemonic_text true = do
    line ← read_string
    if hd.mnemonic_valid (trim_space line)
        then pure (trim_space line)
        else fail (errorf "invalid BIP39 mnemonic")
  mnemonic_text false = do
    bits ← ask_choice one_or_two (codes "2")
    mnemonic ←
        in_session
          (generate_mnemonic hd m.new_entropy (if text_eq bits (codes "1") then 128 else 256))
    answer ← ask_yes_no false
    if answer then pure mnemonic else fail (errorf "cancelled")

  -- `err != nil || count < 1`
  unfoldable pub positive_count : Result ℤ → Result ℤ
  positive_count (ok n) = if is_positive n then ok n else err (errorf "invalid count")
  positive_count (err e) = err (errorf "invalid count")
  positive_count (panic s) = panic s

  -- `runInitMulti`; the accounts are the ones that are printed.
  unfoldable pub run_init_multi : Bool → Exec (Session W) (List (HdAccount hd))
  unfolding may_overwrite mnemonic_text positive_count
  run_init_multi importing = do
    may_overwrite mnemonic_path
    mnemonic ← mnemonic_text importing
    count_str ← ask_string (codes "5")
    count ← lift (positive_count (m.scan_int count_str))
    pass ← in_session (prompt_password_confirm os (codes "│ new passphrase: "))
    in_session
        (save_mnemonic_encrypted cipher (envelope_lib m) files m.random mnemonic_path mnemonic pass)
    lift (derive_accounts hd mnemonic [] count)

  drop_value : {A : Type 0} → Exec (Session W) A → Exec (Session W) (Unit {0})
  drop_value run = do _ ← run; pure tt

  -- `runWalletInit`
  pub run_wallet_init : Exec (Session W) (Unit {0})
  unfolding run_init_single run_init_multi drop_value
  run_wallet_init = do
    mode ← ask_choice one_or_two (codes "1")
    origin ← ask_choice one_or_two (codes "2")
    in_session (wrapping "mkdir %s: %w" (m.mkdir_all (codes "data/wallets")))
    if text_eq mode (codes "2")
        then drop_value (run_init_multi (text_eq origin (codes "2")))
        else drop_value (run_init_single (text_eq origin (codes "2")))
