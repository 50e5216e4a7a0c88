-- ===== src/Wallet/Crypto/RoundTrip.antt =====
-- internal/wallet/crypto.go: the comparison of MACs, and sealing and opening.
use hash256_miner.Base.{
  ℕ, ◌+◌, ◌≤◌, take, drop, ◌≡◌, ◌↔◌, refl, sym, arith, bit_or, bit_xor, Bool, true, false, not, [],
  ◌∷◌, ◌++◌, Bytes, ok, Exec, fail, lift, wrapping, >>=-ok, wrapping-ok, ok-injective, length, All,
  ◌==◌, ==_iff, if◌then◌else◌, ltb, Bool-cases, inl, inr, errorf,
}
use hash256_miner.Std.Bits.{
  bit_xor-eq-zero, bit_or-eq-zero, bit_xor_twice, bit_xor-lt, bit_xor_self,
}
use hash256_miner.Std.Hex.{IsByte}
use hash256_miner.Wallet.Crypto.{
  Cipher, Sealed, fold_diff, constant_time_equal, halves, xor_key_stream, check_iv, encrypt,
  decrypt,
}

fold_diff_zero :
    (x : ℕ) (a b : Bytes) → length a ≡ length b → fold_diff x a b ≡ 0 → (x ≡ 0) × (a ≡ b)
unfolding fold_diff
fold_diff_zero x [] [] len h = (h, refl)
fold_diff_zero x [] (b ∷ t) len h = absurd (omega arith)
fold_diff_zero x (a ∷ s) [] len h = absurd (omega arith)
fold_diff_zero x (a ∷ s) (b ∷ t) len h =
    let (now, rest) = fold_diff_zero (bit_or x (bit_xor a b)) s t (omega arith) h in
    let (x_zero, same) = bit_or-eq-zero x (bit_xor a b) now in
    (x_zero, cc (bit_xor-eq-zero a b same))

fold_diff_self : (a : Bytes) → fold_diff 0 a a ≡ 0
unfolding fold_diff
fold_diff_self [] = refl
fold_diff_self (a ∷ s) = rw (bit_xor_self a) (fold_diff_self s)

-- `constantTimeEqual` is true of exactly the equal slices.
constant_time_equal_iff : (a b : Bytes) → (constant_time_equal a b ≡ true) ↔ (a ≡ b)
unfolding constant_time_equal
constant_time_equal_iff a b = (
  λ h. elim (Bool-cases (length a == length b)) [
    | inl len ↦ (fold_diff_zero 0 a b ((==_iff _ _).0 len) ((==_iff _ _).0 (rw len at h))).1
    | inr other ↦ let h' = rw other at h in cc
  ],
  λ e.
      let len : (length b == length b) ≡ true = (==_iff _ _).1 refl in
      rw (e, len, fold_diff_self b),
)

-- The key of AES, and the key of the MAC, of a derived key.
abbrev pub aes_part : Bytes → Bytes
aes_part key = take 16 key

abbrev pub mac_part : Bytes → Bytes
mac_part key = take 16 (drop 16 key)

halves_lem :
    (key : Bytes) {keys : Bytes × Bytes}
    → halves key ≡ ok keys
    → (32 ≤ length key) × (keys ≡ (aes_part key, mac_part key))
unfolding halves
halves_lem key h = elim (Bool-cases (ltb (length key) 32)) [
  | inl short ↦ let bad = rw short at h in cc
  | inr enough ↦ let same = rw enough at h in (ground arith, cc)
]

module _ (c : Cipher) where
  open c use {Block, scrypt_key, new_cipher, key_stream, keccak}

  xor_key_stream_twice :
      (k : Block) (iv : Bytes) (i : ℕ) (s : Bytes)
      → xor_key_stream c k iv i (xor_key_stream c k iv i s) ≡ s
  unfolding xor_key_stream
  xor_key_stream_twice k iv i [] = refl
  xor_key_stream_twice k iv i (b ∷ s) =
      rw (bit_xor_twice b (key_stream k iv i), xor_key_stream_twice k iv (i + 1) s)

  -- How the parts of a sealed text hang together.
  record IsSealed (passphrase plaintext : Bytes) (s : Sealed c) : Type 0 where
    key : Bytes
    kdf : scrypt_key passphrase s.salt ≡ ok key
    keys : Bytes × Bytes
    split : halves key ≡ ok keys
    block : Block
    aes : new_cipher keys.0 ≡ ok block
    iv_fits : (length s.iv == 16) ≡ true
    text : s.ciphertext ≡ xor_key_stream c block s.iv 0 plaintext
    mac : s.mac ≡ keccak (keys.1 ++ s.ciphertext)

  check_iv_ok :
      {W : Type 0} (iv : Bytes) (w : W) {u : Unit {0}}
      → (check_iv c iv w).0 ≡ ok u
      → (length iv == 16) ≡ true
  unfolding check_iv
  check_iv_ok iv w h = ground arith

  encrypt-IsSealed :
      {W : Type 0} (read : ℕ → Exec W Bytes) (plaintext passphrase : Bytes) (w : W) {s : Sealed c}
      → (encrypt c read plaintext passphrase w).0 ≡ ok s
      → IsSealed passphrase plaintext s
  unfolding encrypt
  encrypt-IsSealed read plaintext passphrase w h =
      let (salt, _, r₁) = >>=-ok (wrapping "salt: %w" (read 32)) _ w h in
      let (iv, _, r₂) = >>=-ok (wrapping "iv: %w" (read 16)) _ _ r₁ in
      let (key, e₃, r₃) = >>=-ok (wrapping "kdf: %w" (lift (scrypt_key passphrase salt))) _ _ r₂ in
      let (keys, e₄, r₄) = >>=-ok (lift (halves key)) _ _ r₃ in
      let (block, e₅, r₅) = >>=-ok (wrapping "aes: %w" (lift (new_cipher keys.0))) _ _ r₄ in
      let (_, e₆, r₆) = >>=-ok (check_iv c iv) _ _ r₅ in
      rw (← ok-injective r₆) (record {
        key = key;
        kdf = wrapping-ok _ (lift (scrypt_key passphrase salt)) _ e₃;
        keys = keys;
        split = e₄;
        block = block;
        aes = wrapping-ok _ (lift (new_cipher keys.0)) _ e₅;
        iv_fits = check_iv_ok iv _ e₆;
        text = refl;
        mac = refl;
      })

  decrypt-IsSealed :
      {W : Type 0} (plaintext passphrase : Bytes) (w : W) (s : Sealed c)
      → IsSealed passphrase plaintext s
      → decrypt c s passphrase w ≡ (ok plaintext, w)
  unfolding decrypt check_iv
  decrypt-IsSealed plaintext passphrase w s h =
      let same =
        (constant_time_equal_iff (keccak (h.keys.1 ++ s.ciphertext)) s.mac).1 (sym h.mac) in
      rw (h.kdf, h.split, same, h.aes, h.iv_fits, h.text)
        (rw (xor_key_stream_twice h.block s.iv 0 plaintext))

  -- What `aesEncryptWithScrypt` has sealed, `aesDecryptWithScrypt` opens with the same passphrase.
  pub decrypt-encrypt :
      {W : Type 0} (read : ℕ → Exec W Bytes) (plaintext passphrase : Bytes) (w w' : W)
      {s : Sealed c}
      → (encrypt c read plaintext passphrase w).0 ≡ ok s
      → decrypt c s passphrase w' ≡ (ok plaintext, w')
  decrypt-encrypt read plaintext passphrase w w' {s} h =
      decrypt-IsSealed plaintext passphrase w' s (encrypt-IsSealed read plaintext passphrase w h)

  -- A decryption that returns a text has derived a key of at least 32 bytes from the passphrase and
  -- the stored salt, and has found the stored MAC to be the Keccak of the bytes 16 to 31 of that
  -- key and the ciphertext.
  pub decrypt_checks_mac :
      {W : Type 0} (s : Sealed c) (passphrase : Bytes) (w : W) {plaintext : Bytes}
      → (decrypt c s passphrase w).0 ≡ ok plaintext
      → (key : Bytes) × (scrypt_key passphrase s.salt ≡ ok key)
        × (32 ≤ length key)
        × (keccak (mac_part key ++ s.ciphertext) ≡ s.mac)
  unfolding decrypt
  decrypt_checks_mac {W} s passphrase w h =
      let (key, e₁, r₁) = >>=-ok (wrapping "kdf: %w" (lift (scrypt_key passphrase s.salt))) _ w h in
      let (keys, e₂, r₂) = >>=-ok (lift (halves key)) _ _ r₁ in
      let (long, split) = halves_lem key e₂ in
      let equal : keccak (keys.1 ++ s.ciphertext) ≡ s.mac =
        (constant_time_equal_iff _ _).0
          (passed (constant_time_equal (keccak (keys.1 ++ s.ciphertext)) s.mac) _ _ r₂) in
      (key, wrapping-ok _ (lift (scrypt_key passphrase s.salt)) _ e₁, long, rw split at equal)
    where
      passed :
          (b : Bool) (m : Exec W Bytes) (v : W) {t : Bytes}
          → ((if not b then fail (errorf "MAC mismatch (wrong passphrase?)") else m) v).0 ≡ ok t
          → b ≡ true
      passed true m v e = refl
      passed false m v e = cc

  -- The libraries' bytes are bytes.
  pub record CipherBytes {W : Type 0} (read : ℕ → Exec W Bytes) : Type 0 where
    pub stream : (k : Block) (iv : Bytes) (i : ℕ) → IsByte (key_stream k iv i)
    pub hash : (s : Bytes) → All IsByte (keccak s)
    pub random : (n : ℕ) (w : W) (b : Bytes) → (read n w).0 ≡ ok b → All IsByte b

  xor_key_stream-IsByte :
      (k : Block) (iv : Bytes) (i : ℕ) (s : Bytes)
      → ((j : ℕ) → IsByte (key_stream k iv j))
      → All IsByte s
      → All IsByte (xor_key_stream c k iv i s)
  unfolding xor_key_stream
  xor_key_stream-IsByte k iv i [] ks h = tt
  xor_key_stream-IsByte k iv i (b ∷ s) ks (hb, hs) =
      (bit_xor-lt 8 b (key_stream k iv i) hb (ks i), xor_key_stream-IsByte k iv (i + 1) s ks hs)

  abbrev pub SealedBytes : Sealed c → Type 0
  SealedBytes s = All IsByte s.ciphertext × All IsByte s.iv × All IsByte s.salt × All IsByte s.mac

  pub encrypt-SealedBytes :
      {W : Type 0} (read : ℕ → Exec W Bytes) (plaintext passphrase : Bytes) (w : W) {s : Sealed c}
      → CipherBytes read
      → All IsByte plaintext
      → (encrypt c read plaintext passphrase w).0 ≡ ok s
      → SealedBytes s
  unfolding encrypt
  encrypt-SealedBytes read plaintext passphrase w laws plain h =
      let (salt, e₁, r₁) = >>=-ok (wrapping "salt: %w" (read 32)) _ w h in
      let (iv, e₂, r₂) = >>=-ok (wrapping "iv: %w" (read 16)) _ _ r₁ in
      let (key, e₃, r₃) = >>=-ok (wrapping "kdf: %w" (lift (scrypt_key passphrase salt))) _ _ r₂ in
      let (keys, e₄, r₄) = >>=-ok (lift (halves key)) _ _ r₃ in
      let (block, e₅, r₅) = >>=-ok (wrapping "aes: %w" (lift (new_cipher keys.0))) _ _ r₄ in
      let (_, e₆, r₆) = >>=-ok (check_iv c iv) _ _ r₅ in
      rw (← ok-injective r₆) (
        xor_key_stream-IsByte block iv 0 plaintext (laws.stream block iv) plain,
        laws.random 16 _ iv (wrapping-ok _ (read 16) _ e₂),
        laws.random 32 _ salt (wrapping-ok _ (read 32) _ e₁),
        laws.hash _,
      )
