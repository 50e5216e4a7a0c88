-- ===== src/Cli/Setup/Single.antt =====
-- internal/cli/wallet.go: the keystore that `runInitSingle` leaves.
use hash256_miner.Base.{◌≡◌, Bool, Bytes, codes, ok, lift, wrapping, >>=-run, wrapping-ok}
use hash256_miner.Wallet.Keystore.RoundTrip.{
  KeystoreLaws, Saved, save_keystore-Saved, save_keystore-address,
}
use hash256_miner.Wallet.Passphrase.{prompt_password_confirm}
use hash256_miner.Cli.Prompt.{Session, in_session}
use hash256_miner.Cli.Machine.{Machine}
use hash256_miner.Cli.Setup.Answers.{
  Overwrites, may_overwrite-Overwrites, PrivateText, private_text-PrivateText,
}
use hash256_miner.Cli.Setup.{keystore_path, may_overwrite, private_text, run_init_single}

module _ (m : Machine) where
  open m use {env, os, files, keystore}
  open env use {net}
  open net use {W, Address, Key}

  -- The input in front of the key and behind it, the key of the private text, the passphrase that was
  -- typed twice, and the file.
  pub record Created (importing : Bool) (s : Session W) (address : Address) (w : W) : Type 0 where
    pub before : Session W
    pub overwrites : Overwrites m keystore_path s before
    pub priv : Bytes
    pub behind : Session W
    pub entered : PrivateText m importing before priv behind
    pub key : Key
    pub parsed : m.hex_to_ecdsa priv ≡ ok key
    pub printed : address ≡ keystore.address_of key
    pub pass : Bytes
    pub confirmed :
        (prompt_password_confirm os (codes "│ new passphrase: ") behind.world).0 ≡ ok pass
    pub saved : Saved keystore files keystore_path key pass w

  -- After `runInitSingle` without error the keystore file opens with the passphrase that was
  -- confirmed to the key that was pasted or generated, with the printed address, and
  -- `PeekKeystoreAddress` reads that address. A file that was there was overwritten only on a yes;
  -- a pasted key is the next line, without white space around it and a `0x` in front. The file
  -- system, the keystore's encryption and its JSON must give back what they were given.
  pub run_init_single-Created :
      (importing : Bool) (s : Session W) {a : Address}
      → KeystoreLaws keystore files m.random
      → (run_init_single m importing s).0 ≡ ok a
      → Created importing s a (run_init_single m importing s).1.world
  unfolding run_init_single
  run_init_single-Created importing s laws h =
      let (_, e₁, r₁, s₁) = >>=-run (may_overwrite m keystore_path) _ s h in
      let (priv, e₂, r₂, s₂) = >>=-run (private_text m importing) _ _ r₁ in
      let (pass, e₃, r₃, s₃) =
        >>=-run (in_session (prompt_password_confirm os (codes "│ new passphrase: "))) _ _ r₂ in
      let (key, e₄, r₄, s₄) =
        >>=-run (in_session (wrapping "parse key: %w" (lift (m.hex_to_ecdsa priv)))) _ _ r₃ in
      rw (s₁, s₂, s₃, s₄)
        (record {
          before = _;
          overwrites = may_overwrite-Overwrites m keystore_path s e₁;
          priv = priv;
          behind = _;
          entered = private_text-PrivateText m importing _ e₂;
          key = key;
          parsed = wrapping-ok "parse key: %w" (lift (m.hex_to_ecdsa priv)) _ e₄;
          printed = save_keystore-address keystore files m.random keystore_path key pass _ r₄;
          pass = pass;
          confirmed = e₃;
          saved = save_keystore-Saved keystore files m.random keystore_path key pass _ laws r₄;
        })
