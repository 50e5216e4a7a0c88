-- ===== src/Cli/Setup/Mnemonic.antt =====
-- internal/cli/wallet.go: the mnemonic of `runInitMulti` before it is saved.
use hash256_miner.Base.{
  ◌≡◌, true, false, Bool, Bool-cases, inl, inr, List, [], ◌∷◌, Bytes, codes, text_eq, ℕ, trim_space,
  trim_space_idem, All, All-trim_space, ok, Result, resume_rule, Exec, pure, fail, errorf, >>=-ok,
  ok-injective, if◌then◌else◌,
}
use hash256_miner.Std.Hex.{IsByte}
use hash256_miner.Wallet.Hd.{generate_mnemonic}
use hash256_miner.Wallet.Hd.Generated.{generate_mnemonic-new}
use hash256_miner.Cli.Prompt.{Session, read_string, in_session, ask_choice, ask_yes_no}
use hash256_miner.Cli.Machine.{Machine}
use hash256_miner.Cli.Setup.{one_or_two, mnemonic_path, may_overwrite, mnemonic_text}

-- A text of bytes without white space around it.
abbrev pub IsTrimmed : Bytes → Type 0
IsTrimmed t = All IsByte t × (trim_space t ≡ t)

module _ (m : Machine) where
  open m use {env, hd}
  open env use {net}
  open net use {W}

  -- The mnemonics that bip39 makes are trimmed.
  abbrev pub MakesTrimmed : Type 0
  MakesTrimmed = (entropy t : Bytes) → hd.new_mnemonic entropy ≡ ok t → IsTrimmed t

  confirmed_input :
      (b : Bool) (s : Session W)
      → All (All IsByte) s.input
      → All
          (All IsByte)
          (if◌then◌else◌ {A = Exec (Session W) (Unit {0})} b
            (pure tt)
            (fail (errorf "cancelled"))
            s).1.input
  confirmed_input true s h = h
  confirmed_input false s h = h

  pasted_line :
      (lines : List Bytes) (w : W) {t : Bytes}
      → All (All IsByte) lines
      → (mnemonic_text m true (record { input = lines; world = w })).0 ≡ ok t
      → IsTrimmed t
  unfolding mnemonic_text read_string
  pasted_line [] w bytes h = cc
  pasted_line (line ∷ lines) w bytes h = elim (Bool-cases (hd.mnemonic_valid (trim_space line))) [
    | inl valid ↦
        let same = ok-injective (rw valid at h) in
        rw (← same) (All-trim_space IsByte line bytes.0, trim_space_idem line)
    | inr invalid ↦ let refused = rw invalid at h in cc
  ]

  answered :
      (lines : List Bytes) (w : W)
      → All (All IsByte) lines
      → All (All IsByte) (ask_yes_no false (record { input = lines; world = w })).1.input
  unfolding ask_yes_no read_string
  answered [] w bytes = tt
  answered (line ∷ lines) w bytes = bytes.1

  pub overwritten :
      (s : Session W)
      → All (All IsByte) s.input
      → All (All IsByte) (may_overwrite m mnemonic_path s).1.input
  unfolding may_overwrite
  overwritten s bytes =
      let kept = answered s.input (m.stat mnemonic_path s.world).1 bytes in
      let typed : Result (Unit {0}) × Session W → Type 0 = λ out. All (All IsByte) out.1.input in
      let asking : Exec (Session W) Bool = ask_yes_no false in
      resume_rule typed (m.stat mnemonic_path s.world).0 _ _ _
        (λ u e.
          resume_rule typed (asking _).0 _ _ _
            (λ answer e'. confirmed_input answer (asking _).1 kept) (λ x e'. kept) (λ p e'. kept))
        (λ x e. bytes) (λ p e. bytes)

  confirmed_text :
      (b : Bool) (t' : Bytes) (s : Session W) {t : Bytes}
      → (if◌then◌else◌ {A = Exec (Session W) Bytes} b (pure t') (fail (errorf "cancelled")) s).0
        ≡ ok t
      → t' ≡ t
  confirmed_text true t' s h = ok-injective h
  confirmed_text false t' s h = cc

  pub mnemonic_text-IsTrimmed :
      (importing : Bool) (s : Session W) {t : Bytes}
      → MakesTrimmed
      → All (All IsByte) s.input
      → (mnemonic_text m importing s).0 ≡ ok t
      → IsTrimmed t
  unfolding mnemonic_text
  mnemonic_text-IsTrimmed true s makes bytes h = pasted_line s.input s.world bytes h
  mnemonic_text-IsTrimmed false s makes bytes h =
      let (bits, _, r₁) = >>=-ok (ask_choice one_or_two (codes "2")) _ s h in
      let size : ℕ = if text_eq bits (codes "1") then 128 else 256 in
      let (t', made, r₂) = >>=-ok (in_session (generate_mnemonic hd m.new_entropy size)) _ _ r₁ in
      let (answer, _, r₃) = >>=-ok (ask_yes_no false) _ _ r₂ in
      let (entropy, _, e) = generate_mnemonic-new hd m.new_entropy size _ made in
      rw (← confirmed_text answer t' _ r₃) (makes entropy t' e)
