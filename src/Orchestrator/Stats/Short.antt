-- ===== src/Orchestrator/Stats/Short.antt =====
-- internal/orchestrator/engine.go: the padding of `shortDiff`.
use hash256_miner.Base.{
  ℕ, zero, suc, ◌-◌, ◌≡◌, refl, arith, ap, ◌∙◌, true, ◌∷◌, ◌++◌, Bytes, codes, some, ok, length,
  length-append, length-replicate, take, drop, replicate, ltb, leb, ◌≤◌, Bool-cases, inl, inr,
  ltb→lt,
}
use hash256_miner.Orchestrator.Stats.{
  hex_text, pad_zeros, short_diff, slice_to, slice_from, ellipsis,
}

replicate-suc : (n c : ℕ) (h : Bytes) → replicate n c ++ (c ∷ h) ≡ replicate (suc n) c ++ h
replicate-suc zero c h = refl
replicate-suc (suc n) c h = ap (λ l. c ∷ l) (replicate-suc n c h)

-- The rounds of the loop are as many as digits are missing.
pad_zeros_lem :
    (f : ℕ) (h : Bytes) → 64 - length h ≤ f → pad_zeros f h ≡ replicate (64 - length h) b'0' ++ h
unfolding pad_zeros
pad_zeros_lem zero h le = let none_missing : 64 - length h ≡ 0 = omega arith in rw none_missing refl
pad_zeros_lem (suc f) h le = elim (Bool-cases (ltb (length h) 64)) [
  | inl short ↦
      let lt = ltb→lt (length h) 64 short in
      let missing : 64 - length h ≡ suc (64 - suc (length h)) = omega arith in
      rw (short, missing)
        (pad_zeros_lem f (b'0' ∷ h) (omega arith) ∙ replicate-suc (64 - suc (length h)) b'0' h)
  | inr long ↦ let none_missing : 64 - length h ≡ 0 = ground arith in rw (long, none_missing) refl
]

-- The loop of `shortDiff` ends: 64 rounds pad the hexadecimal digits of any difficulty with zeros
-- to at least 64 digits, so neither slice is out of range, and the text is `0x`, the first eight
-- digits, an ellipsis and the digits from the sixtieth on.
pub short_diff_total :
    (v : ℕ)
    → (h : Bytes) × (h ≡ replicate (64 - length (hex_text v)) b'0' ++ hex_text v)
      × (64 ≤ length h)
      × (short_diff (some v) ≡ ok (codes "0x" ++ take 8 h ++ ellipsis ++ drop 60 h))
unfolding short_diff slice_to slice_from
short_diff_total v =
    let t = hex_text v in
    let h = replicate (64 - length t) b'0' ++ t in
    let padded : pad_zeros 64 t ≡ h = pad_zeros_lem 64 t (omega arith) in
    let long : 64 ≤ length h = omega (
      arith,
      length-append (replicate (64 - length t) b'0') t,
      length-replicate {A = ℕ} (64 - length t) b'0',
    ) in
    let front : leb 8 (length h) ≡ true = ground arith in
    let back : leb 60 (length h) ≡ true = ground arith in
    (h, refl, long, rw (padded, front, back) refl)
