-- ===== src/Wallet/Crypto.antt =====
-- internal/wallet/crypto.go: scrypt, AES-128-CTR and a Keccak MAC over the second half of the key.
pub mod RoundTrip
use hash256_miner.Base.{
  ℕ, zero, suc, ◌+◌, bit_or, bit_xor, Bool, true, false, not, [], ◌∷◌, ◌++◌, Bytes, Result, ok, err,
  panic, errorf, Exec, pure, fail, crash, lift, wrapping, ◌>>=◌, ◌>>◌, length, take, drop, ltb,
  ◌==◌, if◌then◌else◌,
}

-- The libraries' part: scrypt at the parameters of the source, the AES key schedule, the key stream
-- of CTR mode as the bytes of the encrypted counters, Keccak-256, and the random source.
pub record Cipher : Type 1 where
  pub Block : Type 0
  pub scrypt_key : Bytes → Bytes → Result Bytes
  pub new_cipher : Bytes → Result Block
  pub key_stream : Block → Bytes → ℕ → ℕ
  pub keccak : Bytes → Bytes

abbrev pub salt_len : ℕ
salt_len = 32

abbrev pub iv_len : ℕ
iv_len = 16

-- The loop of `constantTimeEqual`, over slices of one length.
unfoldable pub fold_diff : ℕ → Bytes → Bytes → ℕ
fold_diff x (a ∷ s) (b ∷ t) = fold_diff (bit_or x (bit_xor a b)) s t
fold_diff x _ _ = x

unfoldable pub constant_time_equal : Bytes → Bytes → Bool
unfolding fold_diff
constant_time_equal a b = if length a == length b then fold_diff 0 a b == 0 else false

-- `key[:16]` and `key[16:32]`, which panic on a shorter key.
unfoldable pub halves : Bytes → Result (Bytes × Bytes)
halves key =
    if ltb (length key) 32
    then panic "slice bounds out of range"
    else ok (take 16 key, take 16 (drop 16 key))

module _ (c : Cipher) where
  open c use {Block, scrypt_key, new_cipher, key_stream, keccak}

  -- `XORKeyStream` from the position `i`.
  unfoldable pub xor_key_stream : Block → Bytes → ℕ → Bytes → Bytes
  xor_key_stream k iv i [] = []
  xor_key_stream k iv i (b ∷ s) = bit_xor b (key_stream k iv i) ∷ xor_key_stream k iv (i + 1) s

  -- `cipher.NewCTR` panics unless the iv has the block's length.
  unfoldable pub check_iv : {W : Type 0} → Bytes → Exec W (Unit {0})
  check_iv iv =
      if length iv == iv_len
      then pure tt
      else crash "cipher.NewCTR: IV length must equal block size"

  pub record Sealed : Type 0 where
    pub ciphertext : Bytes
    pub iv : Bytes
    pub salt : Bytes
    pub mac : Bytes

  -- `read n` is `crypto/rand.Read` into a buffer of `n` bytes.
  unfoldable pub encrypt : {W : Type 0} → (ℕ → Exec W Bytes) → Bytes → Bytes → Exec W Sealed
  unfolding halves check_iv
  encrypt read plaintext passphrase = do
    salt ← wrapping "salt: %w" (read salt_len)
    iv ← wrapping "iv: %w" (read iv_len)
    key ← wrapping "kdf: %w" (lift (scrypt_key passphrase salt))
    keys ← lift (halves key)
    block ← wrapping "aes: %w" (lift (new_cipher keys.0))
    check_iv iv
    let ciphertext = xor_key_stream block iv 0 plaintext
    pure (record {
      ciphertext = ciphertext;
      iv = iv;
      salt = salt;
      mac = keccak (keys.1 ++ ciphertext);
    })

  unfoldable pub decrypt : {W : Type 0} → Sealed → Bytes → Exec W Bytes
  unfolding halves check_iv
  decrypt s passphrase = do
    key ← wrapping "kdf: %w" (lift (scrypt_key passphrase s.salt))
    keys ← lift (halves key)
    if not (constant_time_equal (keccak (keys.1 ++ s.ciphertext)) s.mac)
        then fail (errorf "MAC mismatch (wrong passphrase?)")
        else (do
          block ← wrapping "aes: %w" (lift (new_cipher keys.0))
          check_iv s.iv
          pure (xor_key_stream block s.iv 0 s.ciphertext))
