-- ===== src/Wallet/Keystore.antt =====
-- internal/wallet/keystore.go: single keys in Ethereum keystore v3 files. Encryption and JSON are
-- go-ethereum's and the standard library's.
pub mod RoundTrip
use hash256_miner.Base.{
  ℕ, [], ◌∷◌, Bytes, Result, errorf, Exec, pure, fail, lift, wrapping, ◌>>=◌, ◌>>◌,
}

pub record KeystoreLib (Address Key : Type 0) : Type 1 where
  pub address_of : Key → Address
  pub hex_to_address : Bytes → Address
  pub encrypt_key : {W : Type 0} → (ℕ → Exec W Bytes) → Address → Key → Bytes → Exec W Bytes
  pub decrypt_key : Bytes → Bytes → Result (Key × Address)
  pub header_address : Bytes → Result Bytes  -- json.Unmarshal of the field `address`

-- The file system.
pub record Files (W : Type 0) : Type 0 where
  pub mkdir_all_parent : Bytes → Exec W (Unit {0})  -- os.MkdirAll(filepath.Dir(path), 0o700)
  pub read_file : Bytes → Exec W Bytes
  pub write_file : Bytes → Bytes → Exec W (Unit {0})  -- mode 0o600

module _ {Address Key : Type 0} (lib : KeystoreLib Address Key) {W : Type 0} (files : Files W) where
  open lib use {address_of, hex_to_address, decrypt_key, header_address}
  open files use {mkdir_all_parent, read_file, write_file}

  unfoldable pub save_keystore : (ℕ → Exec W Bytes) → Bytes → Key → Bytes → Exec W Address
  save_keystore read path priv passphrase = do
    wrapping "mkdir: %w" (mkdir_all_parent path)
    raw ← wrapping "encrypt: %w" (lib.encrypt_key read (address_of priv) priv passphrase)
    wrapping "write %s: %w" (write_file path raw)
    pure (address_of priv)

  unfoldable pub load_keystore : Bytes → Bytes → Exec W (Key × Address)
  load_keystore path passphrase = do
    raw ← wrapping "read %s: %w" (read_file path)
    wrapping "decrypt: %w" (lift (decrypt_key raw passphrase))

  require_address : Bytes → Exec W Address
  require_address [] = fail (errorf "keystore missing address field")
  require_address (c ∷ s) = pure (hex_to_address (c ∷ s))

  pub peek_keystore_address : Bytes → Exec W Address
  peek_keystore_address path = do
    raw ← wrapping "read %s: %w" (read_file path)
    header ← wrapping "parse: %w" (lift (header_address raw))
    require_address header
