-- ===== src/Wallet/Hd/Generated.antt =====
-- internal/wallet/hd.go: what `GenerateMnemonic` returns.
use hash256_miner.Base.{
  ℕ, ◌≡◌, Bool-cases, inl, inr, Bytes, ok, Exec, lift, wrapping, >>=-ok, wrapping-ok,
}
use hash256_miner.Wallet.Hd.{HdLib, is_entropy_size, generate_mnemonic}

module _ {Address Key : Type 0} (lib : HdLib Address Key) where
  pub generate_mnemonic-new :
      {W : Type 0} (new_entropy : ℕ → Exec W Bytes) (bits : ℕ) (w : W) {t : Bytes}
      → (generate_mnemonic lib new_entropy bits w).0 ≡ ok t
      → (entropy : Bytes) × ((new_entropy bits w).0 ≡ ok entropy)
        × (lib.new_mnemonic entropy ≡ ok t)
  unfolding generate_mnemonic
  generate_mnemonic-new new_entropy bits w h = elim (Bool-cases (is_entropy_size bits)) [
    | inl size ↦
        let entropy_call = wrapping "generate entropy: %w" (new_entropy bits) in
        let (entropy, e, r) = >>=-ok entropy_call _ w (rw size at h) in
        (
          entropy,
          wrapping-ok "generate entropy: %w" (new_entropy bits) w e,
          wrapping-ok "build mnemonic: %w" (lift (lib.new_mnemonic entropy)) _ r,
        )
    | inr other ↦ let refused = rw other at h in cc
  ]
