-- ===== src/Wallet/Keystore/RoundTrip.antt =====
-- internal/wallet/keystore.go: saving a key and loading it.
use hash256_miner.Base.{
  ℕ, ◌≡◌, sym, ap, ◌∙◌, ok-injective, ◌∷◌, Bytes, ok, Exec, wrapping, >>=-run, wrapping-ok,
  wrapping-run,
}
use hash256_miner.Wallet.Keystore.{
  KeystoreLib, Files, require_address, save_keystore, load_keystore, peek_keystore_address,
}

module _ {Address Key : Type 0} (lib : KeystoreLib Address Key) {W : Type 0} (files : Files W) where
  open lib use {address_of, hex_to_address, decrypt_key, header_address}
  open files use {mkdir_all_parent, read_file, write_file}

  -- What is written is read; an encrypted key is decrypted with its passphrase, and its JSON
  -- text holds its address.
  pub record KeystoreLaws (read : ℕ → Exec W Bytes) : Type 0 where
    pub read_back :
        (path raw : Bytes) (w : W) {u : Unit {0}}
        → (write_file path raw w).0 ≡ ok u
        → (read_file path (write_file path raw w).1).0 ≡ ok raw
    pub decrypt_back :
        (a : Address) (priv : Key) (pass raw : Bytes) (w : W)
        → (lib.encrypt_key read a priv pass w).0 ≡ ok raw
        → decrypt_key raw pass ≡ ok (priv, a)
    pub header_back :
        (a : Address) (priv : Key) (pass raw : Bytes) (w : W)
        → (lib.encrypt_key read a priv pass w).0 ≡ ok raw
        → (c : ℕ) × (s : Bytes) × (header_address raw ≡ ok (c ∷ s)) × (hex_to_address (c ∷ s) ≡ a)

  -- What holds in the world that a key was saved in.
  pub record Saved (path : Bytes) (priv : Key) (pass : Bytes) (w : W) : Type 0 where
    pub loads : (load_keystore lib files path pass w).0 ≡ ok (priv, address_of priv)
    pub peeks : (peek_keystore_address lib files path w).0 ≡ ok (address_of priv)

  written-Saved :
      (read : ℕ → Exec W Bytes) (path : Bytes) (priv : Key) (pass raw : Bytes) (v w : W)
      {u : Unit {0}}
      → KeystoreLaws read
      → (lib.encrypt_key read (address_of priv) priv pass v).0 ≡ ok raw
      → (write_file path raw w).0 ≡ ok u
      → Saved path priv pass (write_file path raw w).1
  unfolding load_keystore peek_keystore_address require_address
  written-Saved read path priv pass raw v w laws encrypted written =
      let back = laws.read_back path raw w written in
      let (c, s, header, at) = laws.header_back (address_of priv) priv pass raw v encrypted in
      record {
        loads = rw (back, laws.decrypt_back (address_of priv) priv pass raw v encrypted);
        peeks = rw (back, header, at);
      }

  -- A key that `SaveKeystore` has saved is loaded with its passphrase, and its address is read, if the file
  -- system, the encryption and the JSON text give back what they were given.
  pub save_keystore-Saved :
      (read : ℕ → Exec W Bytes) (path : Bytes) (priv : Key) (pass : Bytes) (w : W) {a : Address}
      → KeystoreLaws read
      → (save_keystore lib files read path priv pass w).0 ≡ ok a
      → Saved path priv pass (save_keystore lib files read path priv pass w).1
  unfolding save_keystore
  save_keystore-Saved read path priv pass w laws h =
      let (_, e₁, r₁, s₁) = >>=-run (wrapping "mkdir: %w" (mkdir_all_parent path)) _ w h in
      let encrypting = lib.encrypt_key read (address_of priv) priv pass in
      let (raw, e₂, r₂, s₂) = >>=-run (wrapping "encrypt: %w" encrypting) _ _ r₁ in
      let writing = write_file path raw in
      let (_, e₃, r₃, s₃) = >>=-run (wrapping "write %s: %w" writing) _ _ r₂ in
      let reached =
        ap (λ p. p.1) (s₁ ∙ s₂ ∙ s₃) ∙ ap (λ p. p.1) (wrapping-run "write %s: %w" writing _ e₃) in
      rw reached (
        written-Saved read path priv pass raw _ _ laws (wrapping-ok "encrypt: %w" encrypting _ e₂)
          (wrapping-ok "write %s: %w" writing _ e₃))

  pub save_keystore-address :
      (read : ℕ → Exec W Bytes) (path : Bytes) (priv : Key) (pass : Bytes) (w : W) {a : Address}
      → (save_keystore lib files read path priv pass w).0 ≡ ok a
      → a ≡ address_of priv
  unfolding save_keystore
  save_keystore-address read path priv pass w h =
      let (_, e₁, r₁, s₁) = >>=-run (wrapping "mkdir: %w" (mkdir_all_parent path)) _ w h in
      let encrypting = lib.encrypt_key read (address_of priv) priv pass in
      let (raw, e₂, r₂, s₂) = >>=-run (wrapping "encrypt: %w" encrypting) _ _ r₁ in
      let (_, e₃, r₃, s₃) = >>=-run (wrapping "write %s: %w" (write_file path raw)) _ _ r₂ in
      sym (ok-injective r₃)
