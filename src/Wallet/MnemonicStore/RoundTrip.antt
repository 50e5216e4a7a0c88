-- ===== src/Wallet/MnemonicStore/RoundTrip.antt =====
-- internal/wallet/mnemonic_store.go: saving a mnemonic and loading it.
use hash256_miner.Base.{
  ℕ, ◌≡◌, refl, ap, ◌∙◌, Bool, true, false, Bytes, codes, text_eq_refl, trim_space, ok, errorf,
  Exec, fail, lift, wrapping, >>=-run, wrapping-ok, wrapping-run, if◌then◌else◌, All,
}
use hash256_miner.Std.Hex.{IsByte, hex_decode-hex_encode}
use hash256_miner.Wallet.Crypto.{Cipher, Sealed, encrypt, decrypt}
use hash256_miner.Wallet.Crypto.RoundTrip.{
  decrypt-encrypt, CipherBytes, SealedBytes, encrypt-SealedBytes,
}
use hash256_miner.Wallet.Keystore.{Files}
use hash256_miner.Wallet.MnemonicStore.{
  EnvelopeLib, envelope_of, sealed_of, accept_mnemonic, save_mnemonic_encrypted,
  load_mnemonic_encrypted,
}

module _ (c : Cipher) (lib : EnvelopeLib) {W : Type 0} (files : Files W) where
  open lib use {marshal, unmarshal, mnemonic_valid}
  open files use {mkdir_all_parent, read_file, write_file}

  -- What is written is read, and what JSON wrote JSON reads.
  pub record Stores : Type 0 where
    pub read_back :
        (path text : Bytes) (w : W) (u : Unit {0})
        → (write_file path text w).0 ≡ ok u
        → (read_file path (write_file path text w).1).0 ≡ ok text
    pub parse_back :
        (s : Sealed c) (text : Bytes)
        → marshal (envelope_of c lib files s) ≡ ok text
        → unmarshal text ≡ ok (envelope_of c lib files s)

  sealed_of-envelope_of :
      (s : Sealed c) (w : W)
      → SealedBytes c s
      → sealed_of c lib files (envelope_of c lib files s) w ≡ (ok s, w)
  unfolding sealed_of envelope_of
  sealed_of-envelope_of s w h = rw (
    hex_decode-hex_encode s.ciphertext h.0,
    hex_decode-hex_encode s.iv h.1,
    hex_decode-hex_encode s.salt h.2,
    hex_decode-hex_encode s.mac h.3,
  )

  -- Loading an envelope whose sealed text opens to a valid, trimmed mnemonic.
  load_opens :
      (path passphrase mnemonic text : Bytes) (s : Sealed c) (w : W)
      → (read_file path w).0 ≡ ok text
      → unmarshal text ≡ ok (envelope_of c lib files s)
      → SealedBytes c s
      → ((v : W) → decrypt c s passphrase v ≡ (ok mnemonic, v))
      → trim_space mnemonic ≡ mnemonic
      → mnemonic_valid mnemonic ≡ true
      → (load_mnemonic_encrypted c lib files path passphrase w).0 ≡ ok mnemonic
  unfolding load_mnemonic_encrypted accept_mnemonic sealed_of
  load_opens path passphrase mnemonic text s w read parse bytes opens trimmed valid =
      let kind : (envelope_of c lib files s).kind ≡ codes "bip39-mnemonic" =
        unfold envelope_of in refl in
      rw (read, parse)
        (rw (kind, text_eq_refl (codes "bip39-mnemonic"))
          (rw (sealed_of-envelope_of s _ bytes) (rw (opens _) (rw (trimmed, valid)))))

  passed :
      {A : Type 0} (b : Bool) (m : Exec W A) (w : W) {t : A}
      → ((if b then m else fail (errorf "invalid mnemonic")) w).0 ≡ ok t
      → (b ≡ true)
        × ((m w).0 ≡ ok t)
        × ((if b then m else fail (errorf "invalid mnemonic")) w ≡ m w)
  passed true m w h = (refl, h, refl)
  passed false m w h = cc

  -- A successful save wrote the marshalled envelope of an encryption, and nothing after it.
  record Saved (read : ℕ → Exec W Bytes) (path mnemonic passphrase : Bytes) (out : W) : Type 0 where
    valid : mnemonic_valid mnemonic ≡ true
    at_encrypt : W
    sealing : Sealed c
    encrypted : (encrypt c read mnemonic passphrase at_encrypt).0 ≡ ok sealing
    text : Bytes
    marshalled : marshal (envelope_of c lib files sealing) ≡ ok text
    at_write : W
    written : (write_file path text at_write).0 ≡ ok tt
    after_write : out ≡ (write_file path text at_write).1

  save-Saved :
      (read : ℕ → Exec W Bytes) (path mnemonic passphrase : Bytes) (w : W) {u : Unit {0}}
      → (save_mnemonic_encrypted c lib files read path mnemonic passphrase w).0 ≡ ok u
      → Saved read path mnemonic passphrase
          (save_mnemonic_encrypted c lib files read path mnemonic passphrase w).1
  unfolding save_mnemonic_encrypted
  save-Saved read path mnemonic passphrase w h =
      let (valid, r₀, s₀) = passed (mnemonic_valid mnemonic) _ w h in
      let (_, e₁, r₁, s₁) = >>=-run (wrapping "mkdir: %w" (mkdir_all_parent path)) _ w r₀ in
      let sealing_call = wrapping "encrypt: %w" (encrypt c read mnemonic passphrase) in
      let (sealing, e₂, r₂, s₂) = >>=-run sealing_call _ _ r₁ in
      let marshal_call =
        wrapping "marshal: %w" (lift (marshal (envelope_of c lib files sealing))) in
      let (text, e₃, r₃, s₃) = >>=-run marshal_call _ _ r₂ in
      record {
        valid = valid;
        at_encrypt = _;
        sealing = sealing;
        encrypted = wrapping-ok "encrypt: %w" (encrypt c read mnemonic passphrase) _ e₂;
        text = text;
        marshalled =
            wrapping-ok "marshal: %w" (lift (marshal (envelope_of c lib files sealing))) _ e₃;
        at_write = _;
        written = wrapping-ok "write %s: %w" (write_file path text) _ r₃;
        after_write =
            ap (λ p. p.1)
              (s₀ ∙ s₁ ∙ s₂ ∙ s₃ ∙ wrapping-run "write %s: %w" (write_file path text) _ r₃);
      }

  -- A mnemonic that `SaveMnemonicEncrypted` has saved is what `LoadMnemonicEncrypted` loads from
  -- the same path with the same passphrase, if it is a text of bytes without white space around it,
  -- the file system and the JSON library give back what they were given, and the cryptographic
  -- libraries return bytes.
  pub load-save_mnemonic :
      (read : ℕ → Exec W Bytes) (path mnemonic passphrase : Bytes) (w : W) {u : Unit {0}}
      → Stores
      → CipherBytes c read
      → All IsByte mnemonic
      → trim_space mnemonic ≡ mnemonic
      → (save_mnemonic_encrypted c lib files read path mnemonic passphrase w).0 ≡ ok u
      → (load_mnemonic_encrypted c lib files path passphrase
          (save_mnemonic_encrypted c lib files read path mnemonic passphrase w).1).0
        ≡ ok mnemonic
  load-save_mnemonic read path mnemonic passphrase w stores laws bytes trimmed h =
      let r = save-Saved read path mnemonic passphrase w h in
      rw r.after_write (
        load_opens path passphrase mnemonic r.text r.sealing (write_file path r.text r.at_write).1
          (stores.read_back path r.text r.at_write tt r.written)
          (stores.parse_back r.sealing r.text r.marshalled)
          (encrypt-SealedBytes c read mnemonic passphrase r.at_encrypt laws bytes r.encrypted)
          (λ v. decrypt-encrypt c read mnemonic passphrase r.at_encrypt v r.encrypted) trimmed
          r.valid)
