-- ===== src/Cli/Balance/Lines.antt =====
-- internal/cli/wallet.go: the lines of `wallet balance`.
use hash256_miner.Base.{
  ℕ, Bytes, ◌≡◌, refl, ap, List, [], ◌∷◌, map, String, Result, ok, err, panic, resume, handle, pure,
  fail, ◌>>=◌,
}
use hash256_miner.Chain.Client.{Net}
use hash256_miner.Chain.Client.Calls.{balance_of}
use hash256_miner.Wallet.Manager.{Account}
use hash256_miner.Cli.Machine.{Machine}
use hash256_miner.Cli.Mine.{main_cell}
use hash256_miner.Cli.Balance.{Line, balances, wei_to_eth_str}

module _ (m : Machine) where
  open m use {env}
  open env use {net}
  open net use {W, Ctx, Conn, Address, Key}

  -- The call panicked, or there is a line for each account, in their order.
  pub data Listed (accounts : List (Account Address Key))
      : Result (List (Line Address)) → Type 0 where
    crashed : (p : String) → Listed accounts (panic p)
    listed :
        {lines : List (Line Address)}
        → map (λ l. l.index) lines ≡ map (λ a. a.index) accounts
        → map (λ l. l.address) lines ≡ map (λ a. a.address) accounts
        → Listed accounts (ok lines)

  Listed-cons :
      (a : Account Address Key) (accounts : List (Account Address Key)) (bal : Result Bytes)
      (r : Result (List (Line Address))) (s : Net W Conn)
      → Listed accounts r
      → Listed
          (a ∷ accounts)
          (resume r
            (λ rest.
              pure {W = Net W Conn}
                (record { index = a.index; address = a.address; balance = bal } ∷ rest))
            fail
            s).0
  Listed-cons a accounts bal _ s (crashed p) = crashed p
  Listed-cons a accounts bal _ s (listed same_index same_address) =
      listed (ap (λ l. a.index ∷ l) same_index) (ap (λ l. a.address ∷ l) same_address)

  -- Unless a call panics, the loop of `runWalletBalance` ends without error and prints a line for
  -- each account, in their order with index and address, whatever requests fail.
  balances-Listed :
      (ctx : Ctx) (accounts : List (Account Address Key)) (s : Net W Conn)
      → Listed accounts (balances m ctx accounts s).0
  unfolding balances wei_to_eth_str
  balances-Listed ctx [] s = listed refl refl
  balances-Listed ctx (a ∷ accounts) s =
      let s₁ = (balance_of net ctx main_cell a.address s).1 in
      go (balance_of net ctx main_cell a.address s).0 s₁ (λ bal.
        Listed-cons a accounts bal (balances m ctx accounts s₁).0 (balances m ctx accounts s₁).1
          (balances-Listed ctx accounts s₁))
    where
      go :
          (r : Result ℕ) (s₁ : Net W Conn)
          → ((bal : Result Bytes)
              → Listed
                  (a ∷ accounts)
                  (resume
                    (balances m ctx accounts s₁).0
                    (λ rest.
                      pure {W = Net W Conn}
                        (record { index = a.index; address = a.address; balance = bal } ∷ rest))
                    fail
                    (balances m ctx accounts s₁).1).0)
          → Listed
              (a ∷ accounts)
              ((handle
                    (λ (w : Net W Conn). (r, s₁))
                    (λ b. pure (ok (m.eth_text b)))
                    (λ e. pure (err e))
                  >>= (λ bal. balances m ctx accounts >>= (λ rest.
                      pure
                        (record { index = a.index; address = a.address; balance = bal } ∷ rest))))
                s).0
      go (ok b) s₁ rest = rest (ok (m.eth_text b))
      go (err e) s₁ rest = rest (err e)
      go (panic p) s₁ rest = crashed p
