-- ===== src/Examples/Wallet.antt =====
-- internal/wallet with small stand-ins for the cryptographic libraries and the system.
use hash256_miner.Base.{
  ℕ, suc, ◌+◌, ◌≤◌, ◌≡◌, ◌≢◌, ◌⊎◌, refl, arith, true, [], ◌∷◌, ◌++◌, Bytes, codes, replicate, none,
  some, foreign, Result, ok, err, Exec, ok-injective, length, take, drop, take_of_length-append,
  drop_of_length-append, All-replicate, trim_space, trim_left, is_space, pos,
}
use hash256_miner.Std.Hex.{IsByte}
use hash256_miner.Std.Decimal.{decimal}
use hash256_miner.Wallet.Crypto.{
  Cipher, Sealed, constant_time_equal, halves, xor_key_stream, check_iv, fold_diff, encrypt,
  decrypt,
}
use hash256_miner.Wallet.Crypto.RoundTrip.{
  decrypt-encrypt, mac_part, decrypt_checks_mac, CipherBytes,
}
use hash256_miner.Wallet.Keystore.{Files}
use hash256_miner.Wallet.MnemonicStore.{
  EncryptedEnvelope, EnvelopeLib, envelope_of, save_mnemonic_encrypted, load_mnemonic_encrypted,
}
use hash256_miner.Wallet.MnemonicStore.RoundTrip.{Stores, load-save_mnemonic}
use hash256_miner.Wallet.Hd.{
  HdLib, HdAccount, derive_leaf, derive_account, derive_from, derive_accounts,
}
use hash256_miner.Wallet.Hd.Indices.{derive_accounts-index}
use hash256_miner.Wallet.Manager.{Manager, multi}
use hash256_miner.Wallet.Passphrase.{
  Os, PassphraseSource, nonempty_or, check_file_permissions, from_env, from_file, resolve,
}
use hash256_miner.Wallet.Passphrase.Sources.{FromFile, resolve_sound}

some-injective : {A : Type 0} {x y : A} → some x ≡ some y → x ≡ y
some-injective h = cc

-- Every key stream is fives, and every hash is 3.
abbrev pub fives : Cipher
fives = record {
  Block = Unit;
  scrypt_key = λ p s. ok (take 32 (p ++ replicate 32 0));
  new_cipher = λ k. ok tt;
  key_stream = λ k iv i. 5;
  keccak = λ b. 3 ∷ [];
}

abbrev pub ones : {W : Type 0} → ℕ → Exec W Bytes
ones n w = (ok (replicate n 1), w)

abbrev secret : Bytes
secret = codes "abc"

abbrev sealed_secret : Sealed fives
sealed_secret = record {
  ciphertext = 100 ∷ 103 ∷ 102 ∷ [];
  iv = replicate 16 1;
  salt = replicate 32 1;
  mac = 3 ∷ [];
}

decrypt-encrypt_example : decrypt fives {W = ℕ} sealed_secret (codes "pw") 0 ≡ (ok secret, 0)
unfolding encrypt halves check_iv xor_key_stream
decrypt-encrypt_example = decrypt-encrypt fives {W = ℕ} ones secret (codes "pw") 0 0 refl

abbrev derived_key : Bytes
derived_key = codes "pw" ++ replicate 30 0

decrypt_checks_mac_example :
    (key : Bytes) × (fives.scrypt_key (codes "pw") sealed_secret.salt ≡ ok key)
    × (32 ≤ length key)
    × (fives.keccak (mac_part key ++ sealed_secret.ciphertext) ≡ sealed_secret.mac)
unfolding decrypt halves check_iv xor_key_stream constant_time_equal fold_diff
decrypt_checks_mac_example = decrypt_checks_mac fives {W = ℕ} sealed_secret (codes "pw") 0 refl

-- The texts of an envelope, each behind its length.
abbrev pub framed : Bytes → Bytes → Bytes
framed s rest = length s ∷ (s ++ rest)

abbrev pub write_envelope : EncryptedEnvelope → Result Bytes
write_envelope e = elim e.salt [
  | none ↦ err (foreign "no salt")
  | some salt ↦ ok (framed e.ciphertext (framed e.cipher_iv (framed salt e.mac)))
]

abbrev pub unframe : {A : Type 0} → Bytes → (Bytes → Bytes → Result A) → Result A
unframe [] k = err (foreign "end of text")
unframe (n ∷ s) k = k (take n s) (drop n s)

abbrev pub read_envelope : Bytes → Result EncryptedEnvelope
read_envelope s = unframe s (λ ciphertext s₁. unframe s₁ (λ iv s₂. unframe s₂ (λ salt mac.
    ok (record {
      version = 1;
      kind = codes "bip39-mnemonic";
      ciphertext = ciphertext;
      mac = mac;
      cipher = codes "aes-128-ctr";
      cipher_iv = iv;
      kdf = codes "scrypt";
      salt = some salt;
    }))))

abbrev json : EnvelopeLib
json = record { marshal = write_envelope; unmarshal = read_envelope; mnemonic_valid = λ m. true }

-- A disk with room for one file.
abbrev disk : Files Bytes
disk = record {
  mkdir_all_parent = λ path w. (ok tt, w);
  read_file = λ path w. (ok w, w);
  write_file = λ path text w. (ok tt, text);
}

disk-Stores : Stores fives json disk
unfolding envelope_of
disk-Stores = record {
  read_back = λ path text w u h. refl;
  parse_back =
      λ s text h. rw (← ok-injective h) (simp (take_of_length-append, drop_of_length-append));
}

pub fives-CipherBytes : {W : Type 0} → CipherBytes fives {W = W} ones
fives-CipherBytes = record {
  stream = λ k iv i. omega arith;
  hash = λ s. (omega arith, tt);
  random = λ n w b h. rw (← ok-injective h) (All-replicate IsByte n 1 (omega arith));
}

load-save_mnemonic_example :
    (load_mnemonic_encrypted fives json disk
      (codes "m")
      (codes "pw")
      (save_mnemonic_encrypted fives json disk ones (codes "m") secret (codes "pw") []).1).0
    ≡ ok secret
unfolding save_mnemonic_encrypted encrypt halves check_iv trim_space trim_left is_space envelope_of
load-save_mnemonic_example =
    load-save_mnemonic fives json disk ones (codes "m") secret (codes "pw") [] disk-Stores
      fives-CipherBytes (omega arith, (omega arith, (omega arith, tt))) refl refl

-- Every child key is its index, and every new mnemonic is the secret.
abbrev pub hd : HdLib ℕ ℕ
hd = record {
  Node = ℕ;
  mnemonic_valid = λ m. true;
  new_seed = λ m p. m;
  new_master_key = λ s. ok 1;
  new_child_key = λ n i. ok i;
  to_ecdsa = λ n. ok n;
  address_of = λ k. k + 100;
  new_mnemonic = λ e. ok secret;
}

abbrev pub hd_account : ℕ → HdAccount hd
hd_account i = record {
  path = codes "m/44'/60'/0'/0/" ++ decimal i;
  index = i;
  address = i + 100;
  key = i;
}

derive_accounts-index_example :
    (pos 2 ≡ pos 2) × (◌≡◌ {A = ℕ} 1 1) × (derive_account hd secret [] 1 ≡ ok (hd_account 1))
unfolding derive_accounts derive_from derive_account derive_leaf
derive_accounts-index_example =
    derive_accounts-index hd secret [] (pos 2) {l = hd_account 0 ∷ hd_account 1 ∷ []} 1
      (hd_account 1) (omega arith) refl refl

abbrev two_accounts : Manager ℕ ℕ
two_accounts = record {
  mode = multi;
  accounts =
      record {
        address = 100;
        private_key = 0;
        path = codes "m/44'/60'/0'/0/" ++ decimal 0;
        index = 0;
      }
      ∷ record {
        address = 101;
        private_key = 1;
        path = codes "m/44'/60'/0'/0/" ++ decimal 1;
        index = 1;
      }
      ∷ [];
}

-- No variable is set, the file is private and holds `pw` and a line end, and the terminal answers `pw`.
abbrev os : Os ℕ
os = record {
  getenv = λ name w. (ok [], w);
  stat_perm = λ path w. (ok 0o600, w);
  read_file = λ path w. (ok (codes "pw" ++ 10 ∷ []), w);
  is_terminal = λ w. (ok true, w);
  read_password = λ w. (ok (codes "pw"), suc w);
}

abbrev source : PassphraseSource
source = record { env_var = codes "PASS"; file = codes "f"; interactive = true; prompt = [] }

resolve_sound_example :
    ((source.env_var ≢ [])
      × (codes "pw" ≢ [])
      × ((v : ℕ) × ((os.getenv source.env_var v).0 ≡ ok (codes "pw"))))
    ⊎ FromFile os (codes "f") (codes "pw")
unfolding resolve from_env nonempty_or from_file check_file_permissions trim_space trim_left
    is_space
resolve_sound_example = resolve_sound os source b'f' [] 0 refl refl
