-- ===== src/Wallet/Manager/Accounts.antt =====
-- internal/wallet/wallet.go: the accounts of a loaded manager, and the keys along `Wipe`.
use hash256_miner.Base.{
  ℕ, zero, suc, ◌^◌, ◌≤◌, ◌<◌, ◌≡◌, ◌≢◌, ◌⊎◌, refl, sym, ap, arith, ◌∙◌, List, [], ◌∷◌, Bytes,
  Option, none, some, ok, Exec, lift, wrapping, >>=-ok, wrapping-ok, ok-injective, length,
  length-map, get_elem?, ℤ, pos, negsuc, rounds,
}
use hash256_miner.Wallet.Hd.{HdLib, derive_accounts}
use hash256_miner.Wallet.Hd.Indices.{derive_accounts_sound}
use hash256_miner.Wallet.Manager.{
  Account, Manager, first, primary, count, load_single, load_multi, KeyHeap, zeroed,
  zero_private_key, wipe_accounts, wipe,
}

first_total {ℓ} : {A : Type ℓ} (l : List A) → 0 < length l → (a : A) × (first l ≡ ok a)
unfolding first
first_total [] h = elim h [ ]
first_total (a ∷ l) h = (a, refl)

module _ {Address Key : Type 0} where
  primary_total :
      (m : Manager Address Key)
      → 0 < length m.accounts
      → (a : Account Address Key) × (primary m ≡ ok a)
  unfolding primary
  primary_total m h = first_total m.accounts h

  -- `LoadSingle` without error gives one account, so `Primary` does not panic.
  pub load_single_one :
      {W : Type 0} (load : Exec W (Key × Address)) (w : W) {m : Manager Address Key}
      → (load_single load w).0 ≡ ok m
      → (count m ≡ 1) × ((a : Account Address Key) × (primary m ≡ ok a))
  unfolding load_single count
  load_single_one load w {m} h =
      let (k, _, r) = >>=-ok load _ w h in
      let one : length m.accounts ≡ 1 =
        ap (λ (n : Manager Address Key). length n.accounts) (sym (ok-injective r)) in
      (one, primary_total m (omega arith))

module _ {Address Key : Type 0} (lib : HdLib Address Key) where
  -- `LoadMulti` without error gives as many accounts as are configured, at least one, so `Primary`
  -- does not panic. The count must fit 32 bits.
  load_multi-count :
      {W : Type 0} (load : Exec W Bytes) (n : ℤ) (w : W) {m : Manager Address Key}
      → rounds n ≤ 2 ^ 32
      → (load_multi lib load n w).0 ≡ ok m
      → (n ≡ pos (count m)) × ((a : Account Address Key) × (primary m ≡ ok a))
  unfolding load_multi count
  load_multi-count load (pos zero) w fits h = cc
  load_multi-count load (negsuc n) w fits h = cc
  load_multi-count load (pos (suc n)) w {m} fits h =
      let (mnemonic, _, r₁) = >>=-ok (wrapping "load mnemonic: %w" load) _ w h in
      let derive = derive_accounts lib mnemonic [] (pos (suc n)) in
      let (hd, e, r₂) = >>=-ok (wrapping "derive: %w" (lift derive)) _ _ r₁ in
      let (filled, all, _) =
        derive_accounts_sound lib mnemonic [] (pos (suc n)) fits
          (wrapping-ok "derive: %w" (lift derive) _ e) in
      let len : length m.accounts ≡ length hd =
        ap (λ (k : Manager Address Key). length k.accounts) (sym (ok-injective r₂))
        ∙ length-map _ hd in
      (all ∙ ap pos (sym len), primary_total m (omega (arith, len, filled)))

module _ {Address : Type 0} where
  wiped_stays :
      (l : List (Account Address (Option ℕ))) (heap : KeyHeap) (p : ℕ)
      → (heap p ≡ none) ⊎ (heap p ≡ some 0)
      → (wipe_accounts l heap p ≡ none) ⊎ (wipe_accounts l heap p ≡ some 0)
  unfolding wipe_accounts zero_private_key zeroed
  wiped_stays [] heap p h = h
  wiped_stays (a ∷ l) heap p h =
      wiped_stays l (zero_private_key a.private_key heap) p (step a.private_key)
    where
      step :
          (k : Option ℕ) → (zero_private_key k heap p ≡ none) ⊎ (zero_private_key k heap p ≡ some 0)
      step none = h
      step (some q) = ground arith

  cleared :
      (l : List (Account Address (Option ℕ))) (heap : KeyHeap) (k p : ℕ)
      (a : Account Address (Option ℕ))
      → get_elem? l k ≡ some a
      → a.private_key ≡ some p
      → (wipe_accounts l heap p ≡ none) ⊎ (wipe_accounts l heap p ≡ some 0)
  unfolding wipe_accounts zero_private_key zeroed
  cleared [] heap k p a found key = cc
  cleared (b ∷ l) heap zero p a found key =
      wiped_stays l (zero_private_key b.private_key heap) p
        (let e : b.private_key ≡ some p = cc in rw e (ground arith))
  cleared (b ∷ l) heap (suc k) p a found key =
      cleared l (zero_private_key b.private_key heap) k p a found key

  untouched :
      (l : List (Account Address (Option ℕ))) (heap : KeyHeap) (q : ℕ)
      → ((k : ℕ) (a : Account Address (Option ℕ)) → get_elem? l k ≡ some a → a.private_key ≢ some q)
      → wipe_accounts l heap q ≡ heap q
  unfolding wipe_accounts zero_private_key zeroed
  untouched [] heap q h = refl
  untouched (b ∷ l) heap q h =
      untouched l (zero_private_key b.private_key heap) q (λ k. h (suc k))
      ∙ step b.private_key (h 0 b refl)
    where
      step : (key : Option ℕ) → key ≢ some q → zero_private_key key heap q ≡ heap q
      step none ne = refl
      step (some p) ne = ground arith

  -- After `Wipe` the number of every account's key is zero or absent, also where accounts share a
  -- key.
  pub wipe_clears :
      (m : Manager Address (Option ℕ)) (heap : KeyHeap) (k p : ℕ) (a : Account Address (Option ℕ))
      → get_elem? m.accounts k ≡ some a
      → a.private_key ≡ some p
      → (wipe m heap p ≡ none) ⊎ (wipe m heap p ≡ some 0)
  unfolding wipe
  wipe_clears m = cleared m.accounts

  -- `Wipe` leaves every key as it was that no account points to.
  pub wipe_keeps :
      (m : Manager Address (Option ℕ)) (heap : KeyHeap) (q : ℕ)
      → ((k : ℕ) (a : Account Address (Option ℕ))
          → get_elem? m.accounts k ≡ some a
          → a.private_key ≢ some q)
      → wipe m heap q ≡ heap q
  unfolding wipe
  wipe_keeps m = untouched m.accounts
