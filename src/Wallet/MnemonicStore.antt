-- ===== src/Wallet/MnemonicStore.antt =====
-- internal/wallet/mnemonic_store.go: the mnemonic in an encrypted JSON envelope.
pub mod RoundTrip
use hash256_miner.Base.{
  ℕ, Bool, true, false, not, [], ◌∷◌, Bytes, codes, text_eq, trim_space, trim_0x, and_then,
  wrap_err, Option, none, some, Result, ok, err, errorf, Exec, pure, fail, lift, wrapping, ◌>>=◌,
  ◌>>◌, if◌then◌else◌,
}
use hash256_miner.Std.Hex.{hex_encode, hex_decode}
use hash256_miner.Wallet.Crypto.{Cipher, Sealed, encrypt, decrypt}
use hash256_miner.Wallet.Keystore.{Files}

-- `kdfParams` holds the constants n, r, p and dklen beside the salt; a salt that is missing or not a
-- string is `none`.
pub record EncryptedEnvelope : Type 0 where
  pub version : ℕ
  pub kind : Bytes
  pub ciphertext : Bytes
  pub mac : Bytes
  pub cipher : Bytes
  pub cipher_iv : Bytes
  pub kdf : Bytes
  pub salt : Option Bytes

-- `encoding/json` at the envelope, and bip39's test.
pub record EnvelopeLib : Type 0 where
  pub marshal : EncryptedEnvelope → Result Bytes
  pub unmarshal : Bytes → Result EncryptedEnvelope
  pub mnemonic_valid : Bytes → Bool

abbrev mnemonic_kind : Bytes
mnemonic_kind = codes "bip39-mnemonic"

-- `saltHex, _ := env.KDFParams["salt"].(string)`
salt_text : Option Bytes → Bytes
salt_text none = []
salt_text (some s) = s

module _ (c : Cipher) (lib : EnvelopeLib) {W : Type 0} (files : Files W) where
  open lib use {marshal, unmarshal, mnemonic_valid}
  open files use {mkdir_all_parent, read_file, write_file}

  unfoldable pub envelope_of : Sealed c → EncryptedEnvelope
  envelope_of s = record {
    version = 1;
    kind = mnemonic_kind;
    ciphertext = hex_encode s.ciphertext;
    mac = hex_encode s.mac;
    cipher = codes "aes-128-ctr";
    cipher_iv = hex_encode s.iv;
    kdf = codes "scrypt";
    salt = some (hex_encode s.salt);
  }

  unfoldable pub save_mnemonic_encrypted :
      (ℕ → Exec W Bytes) → Bytes → Bytes → Bytes → Exec W (Unit {0})
  save_mnemonic_encrypted read path mnemonic passphrase =
      if mnemonic_valid mnemonic
      then (do
        wrapping "mkdir: %w" (mkdir_all_parent path)
        s ← wrapping "encrypt: %w" (encrypt c read mnemonic passphrase)
        text ← wrapping "marshal: %w" (lift (marshal (envelope_of s)))
        wrapping "write %s: %w" (write_file path text))
      else fail (errorf "invalid mnemonic")

  sealed_of : EncryptedEnvelope → Exec W (Sealed c)
  unfolding salt_text
  sealed_of env = do
    ciphertext ← wrapping "decode ciphertext: %w" (lift (hex_decode env.ciphertext))
    iv ← wrapping "decode iv: %w" (lift (hex_decode env.cipher_iv))
    salt ← wrapping "decode salt: %w" (lift (hex_decode (salt_text env.salt)))
    mac ← wrapping "decode mac: %w" (lift (hex_decode env.mac))
    pure (record { ciphertext = ciphertext; iv = iv; salt = salt; mac = mac })

  accept_mnemonic : Bytes → Exec W Bytes
  accept_mnemonic m =
      if mnemonic_valid m
      then pure m
      else fail (errorf "decrypted payload is not a valid BIP39 mnemonic (wrong passphrase?)")

  pub load_mnemonic_encrypted : Bytes → Bytes → Exec W Bytes
  load_mnemonic_encrypted path passphrase = do
    text ← wrapping "read %s: %w" (read_file path)
    env ← wrapping "unmarshal envelope: %w" (lift (unmarshal text))
    if text_eq env.kind mnemonic_kind
        then (do
          s ← sealed_of env
          plain ← wrapping "decrypt: %w" (decrypt c s passphrase)
          accept_mnemonic (trim_space plain))
        else fail (errorf "unexpected envelope kind: %s")

-- `PrivateKeyToChecksumAddress`, over go-ethereum's crypto
pub private_key_to_checksum_address :
    {Address Key : Type 0} → (Bytes → Result Key) → (Key → Address) → Bytes → Result Address
private_key_to_checksum_address hex_to_ecdsa address_of hex_key =
    and_then (wrap_err "parse key: %w" (hex_to_ecdsa (trim_0x hex_key)))
      λ priv. ok (address_of priv)
