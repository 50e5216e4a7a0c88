-- ===== src/Wallet/Passphrase.antt =====
-- internal/wallet/passphrase.go: where a passphrase comes from. What is printed is left out.
pub mod Sources
use hash256_miner.Base.{
  ℕ, Bool, true, false, [], ◌∷◌, Bytes, codes, text_eq, trim_space, bit_and, Result, ok, err, panic,
  errorf, Exec, pure, fail, lift, wrapping, ◌>>=◌, ◌>>◌, ◌==◌, if◌then◌else◌, Option, none, some,
}

-- The operating system and the terminal, on the state `W`.
pub record Os (W : Type 0) : Type 0 where
  pub getenv : Bytes → Exec W Bytes  -- never fails; an unset variable is empty
  pub stat_perm : Bytes → Exec W ℕ  -- os.Stat(path).Mode().Perm()
  pub read_file : Bytes → Exec W Bytes
  pub is_terminal : Exec W Bool  -- term.IsTerminal(stdin)
  pub read_password : Exec W Bytes

pub record PassphraseSource : Type 0 where
  pub env_var : Bytes
  pub file : Bytes
  pub interactive : Bool
  pub prompt : Bytes

module _ {W : Type 0} (os : Os W) where
  open os use {getenv, stat_perm, read_file, is_terminal, read_password}

  unfoldable pub prompt_password : Bytes → Exec W Bytes
  prompt_password prompt = do
    terminal ← is_terminal
    if terminal
        then (do b ← wrapping "read password: %w" read_password; pure (trim_space b))
        else fail (errorf "cannot read passphrase: stdin is not a terminal")

  unfoldable pub nonempty_or : Bytes → Exec W Bytes → Exec W Bytes
  nonempty_or [] m = m
  nonempty_or (c ∷ s) m = pure (c ∷ s)

  unfoldable pub check_file_permissions : Bytes → Exec W (Unit {0})
  check_file_permissions path = do
    mode ← wrapping "stat %s: %w" (stat_perm path)
    if bit_and mode 0o077 == 0
        then pure tt
        else fail (errorf "file %s permissions too loose (%o); expected 0600")

  unfoldable pub from_env : Bytes → Exec W Bytes → Exec W Bytes
  unfolding nonempty_or
  from_env [] next = next
  from_env (c ∷ s) next = do v ← getenv (c ∷ s); nonempty_or v next

  unfoldable pub from_file : Bytes → Exec W Bytes → Exec W Bytes
  from_file [] next = next
  from_file (c ∷ s) next = do
    check_file_permissions (c ∷ s)
    raw ← wrapping "read passphrase file: %w" (read_file (c ∷ s))
    pure (trim_space raw)

  -- `Resolve`
  unfoldable pub resolve : PassphraseSource → Exec W Bytes
  unfolding from_env
  resolve p = from_env p.env_var (
      from_file p.file (
        if p.interactive
        then prompt_password p.prompt
        else fail (errorf "no passphrase source available (env/file/interactive)")))

  unfoldable pub refuse_empty : Bytes → Exec W (Unit {0})
  refuse_empty [] = fail (errorf "passphrase cannot be empty")
  refuse_empty (c ∷ s) = pure tt

  -- `PromptPasswordConfirm`
  unfoldable pub prompt_password_confirm : Bytes → Exec W Bytes
  prompt_password_confirm prompt = do
    first ← prompt_password prompt
    refuse_empty first
    second ← prompt_password (codes "confirm: ")
    if text_eq first second then pure first else fail (errorf "passphrases do not match")
