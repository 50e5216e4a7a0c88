-- ===== src/Wallet/Hd/Indices.antt =====
-- internal/wallet/hd.go: the places and indices of the accounts of `DeriveAccounts`.
use hash256_miner.Base.{
  ℕ, zero, suc, ◌+◌, ◌%◌, ◌^◌, ◌≤◌, ◌<◌, ◌≡◌, sym, ap, arith, ◌∙◌, List, [], ◌∷◌, Bytes, ok,
  and_then-ok, if-ok, wrap_err, ok-injective, some, get_elem?, length, ℤ, pos, negsuc, rounds,
}
use hash256_miner.Wallet.Hd.{
  HdLib, HdAccount, derive_leaf, derive_account, derive_from, derive_accounts,
}

module _ {A : Type 0} where
  found_first :
      (b : A) (rest : List A) {l : List A} {a : A}
      → ok (b ∷ rest) ≡ ok l
      → get_elem? l 0 ≡ some a
      → b ≡ a
  found_first b rest h found = let e = ok-injective h in let f = rw (← e) at found in cc

  found_next :
      (b : A) (rest : List A) (k : ℕ) {l : List A} {a : A}
      → ok (b ∷ rest) ≡ ok l
      → get_elem? l (suc k) ≡ some a
      → get_elem? rest k ≡ some a
  found_next b rest k h found = let e = ok-injective h in rw (← e) at found

  not_found : (k : ℕ) {l : List A} {a : A} → ok [] ≡ ok l → get_elem? l k ≡ some a → ⊥
  not_found k h found = let e = ok-injective h in let f = rw (← e) at found in cc

module _ {Address Key : Type 0} (lib : HdLib Address Key) (mnemonic passphrase : Bytes) where
  derive_account-index :
      (i : ℕ) {a : HdAccount lib} → derive_account lib mnemonic passphrase i ≡ ok a → a.index ≡ i
  unfolding derive_account
  derive_account-index i h =
      let (_, r₀) = if-ok (lib.mnemonic_valid mnemonic) _ _ h in
      let (leaf, _, r₁) = and_then-ok (derive_leaf lib (lib.new_seed mnemonic passphrase) i) _ r₀ in
      let (priv, _, r₂) = and_then-ok (wrap_err "parse ECDSA: %w" (lib.to_ecdsa leaf)) _ r₁ in
      ap (λ (a : HdAccount lib). a.index) (sym (ok-injective r₂))

  length-derive_from :
      (n i : ℕ) {l : List (HdAccount lib)}
      → derive_from lib mnemonic passphrase n i ≡ ok l
      → length l ≡ n
  unfolding derive_from
  length-derive_from zero i h = ap length (sym (ok-injective h))
  length-derive_from (suc n) i h =
      let (a, _, r₁) = and_then-ok (derive_account lib mnemonic passphrase (i % 2 ^ 32)) _ h in
      let (rest, e, r₂) = and_then-ok (derive_from lib mnemonic passphrase n (i + 1)) _ r₁ in
      ap length (sym (ok-injective r₂)) ∙ ap suc (length-derive_from n (i + 1) e)

  -- The account at the place `k` is the one derived at the index `i + k`.
  get_elem?-derive_from :
      (n i k : ℕ) {l : List (HdAccount lib)} {a : HdAccount lib}
      → i + n ≤ 2 ^ 32
      → derive_from lib mnemonic passphrase n i ≡ ok l
      → get_elem? l k ≡ some a
      → derive_account lib mnemonic passphrase (i + k) ≡ ok a
  unfolding derive_from
  get_elem?-derive_from zero i k fits h found = absurd (not_found k h found)
  get_elem?-derive_from (suc n) i zero fits h found =
      let (b, e₁, r₁) = and_then-ok (derive_account lib mnemonic passphrase (i % 2 ^ 32)) _ h in
      let (rest, _, r₂) = and_then-ok (derive_from lib mnemonic passphrase n (i + 1)) _ r₁ in
      ap (derive_account lib mnemonic passphrase) (omega arith)
      ∙ e₁
      ∙ ap ok (found_first b rest r₂ found)
  get_elem?-derive_from (suc n) i (suc k) fits h found =
      let (b, _, r₁) = and_then-ok (derive_account lib mnemonic passphrase (i % 2 ^ 32)) _ h in
      let (rest, e₂, r₂) = and_then-ok (derive_from lib mnemonic passphrase n (i + 1)) _ r₁ in
      ap (derive_account lib mnemonic passphrase) (omega arith)
      ∙ get_elem?-derive_from n (i + 1) k (omega arith) e₂ (found_next b rest k r₂ found)

  -- The list is as long as the count, and its accounts are derived at their places.
  pub derive_accounts_sound :
      (count : ℤ) {l : List (HdAccount lib)}
      → rounds count ≤ 2 ^ 32
      → derive_accounts lib mnemonic passphrase count ≡ ok l
      → (0 < length l)
        × (count ≡ pos (length l))
        × ((k : ℕ) (a : HdAccount lib)
            → get_elem? l k ≡ some a
            → (a.index ≡ k) × (derive_account lib mnemonic passphrase k ≡ ok a))
  unfolding derive_accounts
  derive_accounts_sound (pos zero) fits h = cc
  derive_accounts_sound (pos (suc n)) fits h =
      let len = length-derive_from (suc n) 0 h in
      (
        omega arith,
        ap pos (sym len),
        λ k a found.
            let e =
              ap (derive_account lib mnemonic passphrase) (omega arith)
              ∙ get_elem?-derive_from (suc n) 0 k (omega arith) h found in
            (derive_account-index k e, e),
      )
  derive_accounts_sound (negsuc n) fits h = cc

  -- `DeriveAccounts` without error gives as many accounts as were asked for, and the account at the
  -- place `k` is the one that `DeriveAccount` derives at the index `k`. The count must fit 32 bits.
  pub derive_accounts-index :
      (count : ℤ) {l : List (HdAccount lib)} (k : ℕ) (a : HdAccount lib)
      → rounds count ≤ 2 ^ 32
      → derive_accounts lib mnemonic passphrase count ≡ ok l
      → get_elem? l k ≡ some a
      → (count ≡ pos (length l)) × (a.index ≡ k) × (derive_account lib mnemonic passphrase k ≡ ok a)
  derive_accounts-index count k a fits h found =
      let (_, all, each) = derive_accounts_sound count fits h in
      let (index, derived) = each k a found in (all, index, derived)
