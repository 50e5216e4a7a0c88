-- ===== src/Wallet/Manager.antt =====
-- internal/wallet/wallet.go: the accounts that the miner holds, and zeroPrivateKey of passphrase.go.
pub mod Accounts
use hash256_miner.Base.{
  ℕ, zero, suc, Bool, true, false, List, [], ◌∷◌, Bytes, Option, none, some, Result, ok, err, panic,
  errorf, Exec, pure, fail, lift, wrapping, ◌>>=◌, map, length, if◌then◌else◌, ◌==◌, ℤ, is_positive,
}
use hash256_miner.Wallet.Hd.{HdLib, HdAccount, derive_accounts}

pub data Mode : Type 0 where
  single multi : Mode

pub record Account (Address Key : Type 0) : Type 0 where
  pub address : Address
  pub private_key : Key
  pub path : Bytes
  pub index : ℕ

pub record Manager (Address Key : Type 0) : Type 0 where
  pub mode : Mode
  pub accounts : List (Account Address Key)

-- `s[0]`
unfoldable pub first {ℓ} : {A : Type ℓ} → List A → Result A
first [] = panic "index out of range"
first (a ∷ rest) = ok a

module _ {Address Key : Type 0} where
  unfoldable pub primary : Manager Address Key → Result (Account Address Key)
  unfolding first
  primary m = first m.accounts

  unfoldable pub count : Manager Address Key → ℕ
  count m = length m.accounts

  pub addresses : Manager Address Key → List Address
  addresses m = map (λ a. a.address) m.accounts

  -- `load` is `LoadKeystore` at the path and the passphrase.
  unfoldable pub load_single : {W : Type 0} → Exec W (Key × Address) → Exec W (Manager Address Key)
  load_single load = do
    k ← load
    pure (record {
      mode = single;
      accounts = record { address = k.1; private_key = k.0; path = []; index = 0 } ∷ [];
    })

module _ {Address Key : Type 0} (lib : HdLib Address Key) where
  pub account_of : HdAccount lib → Account Address Key
  account_of a = record { address = a.address; private_key = a.key; path = a.path; index = a.index }

  -- `load` is `LoadMnemonicEncrypted` at the path and the passphrase.
  unfoldable pub load_multi : {W : Type 0} → Exec W Bytes → ℤ → Exec W (Manager Address Key)
  unfolding account_of
  load_multi load count =
      if is_positive count
      then (do
        mnemonic ← wrapping "load mnemonic: %w" load
        hd ← wrapping "derive: %w" (lift (derive_accounts lib mnemonic [] count))
        pure (record { mode = multi; accounts = map account_of hd }))
      else fail (errorf "count must be > 0")

-- The private numbers by the keys' pointers; a key may lack its number.
abbrev pub KeyHeap : Type 0
KeyHeap = ℕ → Option ℕ

zeroed : Option ℕ → Option ℕ
zeroed none = none
zeroed (some d) = some 0

-- `zeroPrivateKey`; a nil key is `none`.
zero_private_key : Option ℕ → KeyHeap → KeyHeap
unfolding zeroed
zero_private_key none heap q = heap q
zero_private_key (some p) heap q = if p == q then zeroed (heap p) else heap q

-- The loop of `Wipe`.
wipe_accounts : {Address : Type 0} → List (Account Address (Option ℕ)) → KeyHeap → KeyHeap
wipe_accounts [] heap = heap
wipe_accounts (a ∷ rest) heap = wipe_accounts rest (zero_private_key a.private_key heap)

-- `(*Manager).Wipe`
pub wipe : {Address : Type 0} → Manager Address (Option ℕ) → KeyHeap → KeyHeap
unfolding wipe_accounts
wipe m heap = wipe_accounts m.accounts heap
