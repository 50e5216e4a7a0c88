-- ===== src/Wallet/Passphrase/Sources.antt =====
-- internal/wallet/passphrase.go: where a resolved or confirmed passphrase came from.
use hash256_miner.Base.{
  ℕ, ◌%◌, ◌≡◌, ◌≢◌, ◌⊎◌, inl, inr, refl, arith, Bool, true, false, [], ◌∷◌, Bytes, codes, text_eq,
  text_eq_iff, trim_space, bit_and, ok, errorf, Exec, pure, fail, wrapping, >>=-ok, wrapping-ok,
  ok-injective, if◌then◌else◌, ◌==◌, ==_iff, String, sym, ◌∙◌, ap,
}
use hash256_miner.Std.Bits.{bit_and_077}
use hash256_miner.Wallet.Passphrase.{
  Os, PassphraseSource, prompt_password, nonempty_or, check_file_permissions, from_env, from_file,
  resolve, refuse_empty, prompt_password_confirm,
}

module _ {W : Type 0} (os : Os W) where
  open os use {getenv, stat_perm, read_file, is_terminal, read_password}

  -- A passphrase file was read only behind a check of its mode, which lets group and others nothing.
  pub record FromFile (path : Bytes) (pass : Bytes) : Type 0 where
    pub mode : ℕ
    pub at_stat : W
    pub stat_ok : (stat_perm path at_stat).0 ≡ ok mode
    pub private_mode : mode % 64 ≡ 0
    pub raw : Bytes
    pub at_read : W
    pub read_ok : (read_file path at_read).0 ≡ ok raw
    pub trimmed : pass ≡ trim_space raw

  passed :
      {A : Type 0} (b : Bool) (m : Exec W A) (w : W) {t : A} (s : String)
      → ((if b then m else fail (errorf s)) w).0 ≡ ok t
      → (b ≡ true) × ((m w).0 ≡ ok t)
  passed true m w s h = (refl, h)
  passed false m w s h = cc

  check_private :
      (path : Bytes) (w : W) {u : Unit {0}}
      → (check_file_permissions os path w).0 ≡ ok u
      → (mode : ℕ) × (v : W) × ((stat_perm path v).0 ≡ ok mode) × (mode % 64 ≡ 0)
  unfolding check_file_permissions
  check_private path w h =
      let (mode, e, r) = >>=-ok (wrapping "stat %s: %w" (stat_perm path)) _ w h in
      let (low, _) = passed (bit_and mode 0o077 == 0) _ _ _ r in
      (
        mode,
        w,
        wrapping-ok "stat %s: %w" (stat_perm path) w e,
        sym (bit_and_077 mode) ∙ (==_iff _ 0).0 low,
      )

  from_file_sound :
      (c : ℕ) (s : Bytes) (next : Exec W Bytes) (w : W) {pass : Bytes}
      → (from_file os (c ∷ s) next w).0 ≡ ok pass
      → FromFile (c ∷ s) pass
  unfolding from_file
  from_file_sound c s next w h =
      let (_, e₁, r₁) = >>=-ok (check_file_permissions os (c ∷ s)) _ w h in
      let (raw, e₂, r₂) = >>=-ok (wrapping "read passphrase file: %w" (read_file (c ∷ s))) _ _ r₁ in
      let (mode, v, stat, low) = check_private (c ∷ s) w e₁ in
      record {
        mode = mode;
        at_stat = v;
        stat_ok = stat;
        private_mode = low;
        raw = raw;
        at_read = _;
        read_ok = wrapping-ok "read passphrase file: %w" (read_file (c ∷ s)) _ e₂;
        trimmed = sym (ok-injective r₂);
      }

  nonempty_or_sound :
      (v : Bytes) (m : Exec W Bytes) (w : W) {pass : Bytes}
      → (nonempty_or os v m w).0 ≡ ok pass
      → ((v ≢ []) × (v ≡ pass)) ⊎ ((m w).0 ≡ ok pass)
  unfolding nonempty_or
  nonempty_or_sound [] m w h = inr h
  nonempty_or_sound (c ∷ s) m w h = inl (ground arith, ok-injective h)

  -- Where a passphrase file is configured, a passphrase that `Resolve` returns is the non-empty
  -- value of the configured variable, or the trimmed content of the file, whose mode was found to
  -- give group and others no access.
  pub resolve_sound :
      (p : PassphraseSource) (c : ℕ) (s : Bytes) (w : W) {pass : Bytes}
      → p.file ≡ c ∷ s
      → (resolve os p w).0 ≡ ok pass
      → ((p.env_var ≢ []) × (pass ≢ []) × ((v : W) × ((getenv p.env_var v).0 ≡ ok pass)))
        ⊎ FromFile (c ∷ s) pass
  unfolding resolve
  resolve_sound p c s w file h = go p.env_var (rw file at h)
    where
      next : Exec W Bytes
      next =
          if p.interactive
          then prompt_password os p.prompt
          else fail (errorf "no passphrase source available (env/file/interactive)")

      go :
          (e : Bytes) {pass : Bytes}
          → (from_env os e (from_file os (c ∷ s) next) w).0 ≡ ok pass
          → ((e ≢ []) × (pass ≢ []) × ((v : W) × ((getenv e v).0 ≡ ok pass)))
            ⊎ FromFile (c ∷ s) pass
      go [] h' = inr (from_file_sound c s next w h')
      go (d ∷ e) h' =
          let (v, e₁, r₁) =
            >>=-ok (getenv (d ∷ e)) (λ v. nonempty_or os v (from_file os (c ∷ s) next)) w h' in
          elim (nonempty_or_sound v _ _ r₁) [
            | inl (some_v, same) ↦ inl (ground arith, rw (← same) some_v, (w, e₁ ∙ ap ok same))
            | inr later ↦ inr (from_file_sound c s next _ later)
          ]

  not_empty :
      (first : Bytes) (w : W) {u : Unit {0}} → (refuse_empty os first w).0 ≡ ok u → first ≢ []
  unfolding refuse_empty
  not_empty [] w h = cc
  not_empty (c ∷ s) w h = ground arith

  confirmed :
      (prompt first second : Bytes) (w v x : W) {pass : Bytes}
      → first ≢ []
      → (prompt_password os prompt w).0 ≡ ok first
      → (prompt_password os (codes "confirm: ") v).0 ≡ ok second
      → ((if text_eq first second then pure first else fail (errorf "passphrases do not match"))
          x).0
        ≡ ok pass
      → (pass ≢ [])
        × ((prompt_password os prompt w).0 ≡ ok pass)
        × ((v : W) × ((prompt_password os (codes "confirm: ") v).0 ≡ ok pass))
  confirmed prompt first second w v x some_first one two h =
      let (same, returned) = passed (text_eq first second) (pure first) x _ h in
      let e = ok-injective returned in
      let e' = sym ((text_eq_iff first second).0 same) ∙ e in
      (rw (← e) some_first, one ∙ ap ok e, (v, two ∙ ap ok e'))

  -- A passphrase that `PromptPasswordConfirm` returns is not empty and was the answer to both
  -- prompts.
  prompt_password_confirm_sound :
      (prompt : Bytes) (w : W) {pass : Bytes}
      → (prompt_password_confirm os prompt w).0 ≡ ok pass
      → (pass ≢ [])
        × ((prompt_password os prompt w).0 ≡ ok pass)
        × ((v : W) × ((prompt_password os (codes "confirm: ") v).0 ≡ ok pass))
  unfolding prompt_password_confirm
  prompt_password_confirm_sound prompt w h =
      let (first, e₁, r₁) = >>=-ok (prompt_password os prompt) _ w h in
      let (_, e₂, r₂) = >>=-ok (refuse_empty os first) _ _ r₁ in
      let (second, e₃, r₃) = >>=-ok (prompt_password os (codes "confirm: ")) _ _ r₂ in
      confirmed prompt first second w _ _ (not_empty first _ e₂) e₁ e₃ r₃
