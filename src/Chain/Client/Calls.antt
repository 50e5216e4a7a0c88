-- ===== src/Chain/Client/Calls.antt =====
-- internal/chain/client.go, CallContract to TransactionReceipt: the RPC calls, each with its deadline and
-- with the failover of `withClient`.
use hash256_miner.Base.{ℕ, Bool, Option, none, some, Bytes, Exec, pure, crash, ◌>>=◌, if◌then◌else◌}
use hash256_miner.Chain.Rpc.{Rpc, CallMsg, Receipt}
use hash256_miner.Chain.Client.{M, get, deadline, with_client}

module _ (net : Rpc) where
  open net use {W, Ctx, Conn, Address, Signed, Hash}

  -- The deadline covers the call, the reconnection and the second call.
  unfoldable pub with_deadline : {A : Type 0} → Ctx → ℕ → (Ctx → Conn → Exec W A) → M net A
  with_deadline ctx p fn = do
    c ← get net p
    call_ctx ← deadline net ctx c.timeout
    with_client net call_ctx p (fn call_ctx)

  unfoldable pub call_contract : Ctx → ℕ → Address → Bytes → M net Bytes
  call_contract ctx p to input = with_deadline ctx p (λ c cli. net.call_contract cli c to input)

  unfoldable pub block_number : Ctx → ℕ → M net ℕ
  block_number ctx p = with_deadline ctx p (λ c cli. net.block_number cli c)

  pub balance_of : Ctx → ℕ → Address → M net ℕ
  balance_of ctx p addr = with_deadline ctx p (λ c cli. net.balance_at cli c addr)

  -- `new(big.Int).Set(head.BaseFee)`, which panics at nil.
  unfoldable pub copy_fee : Option ℕ → Exec W ℕ
  copy_fee none = crash "nil pointer dereference"
  copy_fee (some fee) = pure fee

  unfoldable pub fees : Ctx → Conn → Exec W (ℕ × ℕ)
  fees c cli = do
    head ← net.base_fee_at_head cli c
    base ← copy_fee head
    tip ← net.suggest_gas_tip_cap cli c
    pure (base, tip)

  unfoldable pub suggest_fees : Ctx → ℕ → M net (ℕ × ℕ)
  suggest_fees ctx p = with_deadline ctx p fees

  unfoldable pub nonce_at : Ctx → ℕ → Address → Bool → M net ℕ
  nonce_at ctx p addr pending =
      with_deadline ctx p
        (λ c cli. if pending then net.pending_nonce_at cli c addr else net.nonce_at cli c addr)

  unfoldable pub estimate_gas : Ctx → ℕ → CallMsg Address → M net ℕ
  estimate_gas ctx p msg = with_deadline ctx p (λ c cli. net.estimate_gas cli c msg)

  unfoldable pub send_transaction : Ctx → ℕ → Signed → M net (Unit {0})
  send_transaction ctx p tx = with_deadline ctx p (λ c cli. net.send_transaction cli c tx)

  pub transaction_receipt : Ctx → ℕ → Hash → M net Receipt
  transaction_receipt ctx p h = with_deadline ctx p (λ c cli. net.transaction_receipt cli c h)
