-- ===== src/Wallet/Hd.antt =====
-- internal/wallet/hd.go: accounts derived from a BIP39 mnemonic along m/44'/60'/0'/0/index.
pub mod Indices
pub mod Generated
use hash256_miner.Base.{
  ℕ, zero, suc, ◌+◌, ◌%◌, ◌^◌, Bool, true, false, ◌||◌, List, [], ◌∷◌, ◌++◌, Bytes, codes, Result,
  ok, err, errorf, Exec, fail, lift, wrapping, ◌>>=◌, pure, and_then, wrap_err, if◌then◌else◌, ◌==◌,
  ℤ, is_positive, rounds,
}
use hash256_miner.Std.Decimal.{decimal}

-- bip39, bip32 and go-ethereum's crypto.
pub record HdLib (Address Key : Type 0) : Type 1 where
  pub Node : Type 0
  pub mnemonic_valid : Bytes → Bool
  pub new_seed : Bytes → Bytes → Bytes
  pub new_master_key : Bytes → Result Node
  pub new_child_key : Node → ℕ → Result Node
  pub to_ecdsa : Node → Result Key
  pub address_of : Key → Address
  pub new_mnemonic : Bytes → Result Bytes

abbrev pub ethereum_purpose : ℕ
ethereum_purpose = 0x8000002C

abbrev pub ethereum_coin_type : ℕ
ethereum_coin_type = 0x8000003C

-- `entropyBits != 128 && …`
is_entropy_size : ℕ → Bool
is_entropy_size n = (n == 128) || ((n == 160) || ((n == 192) || ((n == 224) || (n == 256))))

module _ {Address Key : Type 0} (lib : HdLib Address Key) where
  open lib use {
    Node, mnemonic_valid, new_seed, new_master_key, new_child_key, to_ecdsa, address_of,
    new_mnemonic,
  }

  pub record HdAccount : Type 0 where
    pub path : Bytes
    pub index : ℕ
    pub address : Address
    pub key : Key

  -- `new_entropy` is bip39's, over the random source.
  pub generate_mnemonic : {W : Type 0} → (ℕ → Exec W Bytes) → ℕ → Exec W Bytes
  unfolding is_entropy_size
  generate_mnemonic new_entropy bits =
      if is_entropy_size bits
      then (do
        ent ← wrapping "generate entropy: %w" (new_entropy bits)
        wrapping "build mnemonic: %w" (lift (new_mnemonic ent)))
      else fail (errorf "entropy bits must be 128/160/192/224/256, got %d")

  -- The six keys from the seed to the leaf.
  unfoldable pub derive_leaf : Bytes → ℕ → Result Node
  derive_leaf seed index = and_then (wrap_err "master key: %w" (new_master_key seed)) λ master.
      and_then (wrap_err "derive purpose: %w" (new_child_key master ethereum_purpose)) λ purpose.
        and_then (wrap_err "derive coin: %w" (new_child_key purpose ethereum_coin_type)) λ coin.
          and_then (wrap_err "derive account: %w" (new_child_key coin 0x80000000)) λ account.
            and_then (wrap_err "derive change: %w" (new_child_key account 0))
              λ change. wrap_err "derive leaf[%d]: %w" (new_child_key change index)

  unfoldable pub derive_account : Bytes → Bytes → ℕ → Result HdAccount
  derive_account mnemonic passphrase index =
      if mnemonic_valid mnemonic
      then and_then (derive_leaf (new_seed mnemonic passphrase) index) (λ leaf.
        and_then (wrap_err "parse ECDSA: %w" (to_ecdsa leaf)) (λ priv. ok (record {
          path = codes "m/44'/60'/0'/0/" ++ decimal index;
          index = index;
          address = address_of priv;
          key = priv;
        })))
      else err (errorf "invalid mnemonic")

  -- The loop from `i`, with `n` rounds left; `uint32(i)` wraps.
  unfoldable pub derive_from : Bytes → Bytes → ℕ → ℕ → Result (List HdAccount)
  derive_from mnemonic passphrase zero i = ok []
  derive_from mnemonic passphrase (suc n) i =
      and_then (derive_account mnemonic passphrase (i % 2 ^ 32))
        λ acc. and_then (derive_from mnemonic passphrase n (i + 1)) λ rest. ok (acc ∷ rest)

  unfoldable pub derive_accounts : Bytes → Bytes → ℤ → Result (List HdAccount)
  derive_accounts mnemonic passphrase count =
      if is_positive count
      then derive_from mnemonic passphrase (rounds count) 0
      else err (errorf "count must be > 0")
