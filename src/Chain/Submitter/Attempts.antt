-- ===== src/Chain/Submitter/Attempts.antt =====
-- internal/chain/submitter.go: the transactions that `SubmitMine` hands to the node, as an observer of the
-- world sees them.
use hash256_miner.Base.{
  ℕ, ◌≡◌, refl, ◌∙◌, true, Option, none, some, List, [], ◌∷◌, ◌++◌, Result, ok, Exec, resume_rule,
  wrapping_rule, wrapping, lift, pure, handle, ◌>>=◌, ◌>>◌,
}
use hash256_miner.Std.Float64.{Float64}
use hash256_miner.Chain.Rpc.{Rpc, Transaction, CallMsg}
use hash256_miner.Chain.Client.{Net, M}
use hash256_miner.Chain.Client.Calls.{
  with_deadline, copy_fee, fees, suggest_fees, nonce_at, estimate_gas, send_transaction,
}
use hash256_miner.Chain.Client.Quiet.{Unseen, Quiet, QuietCall, handle-Quiet, with_client-Quiet}
use hash256_miner.Chain.Client.Attempts.{
  Saw, Saw-nothing, Saw-after, Saw-map, Attempts, with_client-Attempts,
}
use hash256_miner.Chain.Abi.{AbiLib, pack_mine}
use hash256_miner.Chain.Submitter.{Submitter, SubmitParams, call_msg, mine_tx, submit_mine}

module _ (net : Rpc) where
  open net use {W, Ctx, Conn, Address, Signed}

  -- The observer sees each transaction that is handed to a node, and no other call that `SubmitMine` makes.
  pub record SeesTransactions (seen : W → List Signed) : Type 0 where
    pub connections : Unseen net seen
    pub base_fee_at_head : (r : Conn) (c : Ctx) → QuietCall net seen (net.base_fee_at_head r c)
    pub suggest_gas_tip_cap :
        (r : Conn) (c : Ctx) → QuietCall net seen (net.suggest_gas_tip_cap r c)
    pub estimate_gas :
        (r : Conn) (c : Ctx) (msg : CallMsg Address) → QuietCall net seen (net.estimate_gas r c msg)
    pub pending_nonce_at :
        (r : Conn) (c : Ctx) (a : Address) → QuietCall net seen (net.pending_nonce_at r c a)
    pub send_transaction :
        (r : Conn) (c : Ctx) (t : Signed) (w : W)
        → seen (net.send_transaction r c t w).1 ≡ seen w ++ (t ∷ [])

  module _ {L : Type 0} (seen : W → L) (unseen : Unseen net seen) where
    -- A call with its deadline is seen only where the call itself is.
    pub with_deadline-Quiet :
        {A : Type 0} (ctx : Ctx) (p : ℕ) (fn : Ctx → Conn → Exec W A)
        → ((c : Ctx) (r : Conn) → QuietCall net seen (fn c r))
        → Quiet net seen (with_deadline net ctx p fn)
    unfolding with_deadline
    with_deadline-Quiet ctx p fn quiet s =
        with_client-Quiet net seen unseen _ p _ (λ r. quiet _ r) s

  module _ (seen : W → List Signed) (sees : SeesTransactions seen) where
    copy_fee-Quiet : (o : Option ℕ) → QuietCall net seen (copy_fee net o)
    unfolding copy_fee
    copy_fee-Quiet none w = refl
    copy_fee-Quiet (some fee) w = refl

    fees-Quiet : (c : Ctx) (r : Conn) → QuietCall net seen (fees net c r)
    unfolding fees
    fees-Quiet c r w =
        let P : Result (ℕ × ℕ) × W → Type 0 = λ out. seen out.1 ≡ seen w in
        let head = net.base_fee_at_head r c w in
        let quiet : seen head.1 ≡ seen w = sees.base_fee_at_head r c w in
        resume_rule P head.0 _ _ head.1
          (λ o _.
            let base = copy_fee net o head.1 in
            let quiet' : seen base.1 ≡ seen w = copy_fee-Quiet o head.1 ∙ quiet in
            resume_rule P base.0 _ _ base.1
              (λ b _.
                let tip = net.suggest_gas_tip_cap r c base.1 in
                let quiet'' : seen tip.1 ≡ seen w = sees.suggest_gas_tip_cap r c base.1 ∙ quiet' in
                resume_rule P tip.0 _ _ tip.1 (λ _ _. quiet'') (λ _ _. quiet'') (λ _ _. quiet''))
              (λ _ _. quiet') (λ _ _. quiet'))
          (λ _ _. quiet) (λ _ _. quiet)

    suggest_fees-Quiet : (ctx : Ctx) (p : ℕ) → Quiet net seen (suggest_fees net ctx p)
    unfolding suggest_fees
    suggest_fees-Quiet ctx p = with_deadline-Quiet seen sees.connections ctx p (fees net) fees-Quiet

    estimate_gas-Quiet :
        (ctx : Ctx) (p : ℕ) (msg : CallMsg Address) → Quiet net seen (estimate_gas net ctx p msg)
    unfolding estimate_gas
    estimate_gas-Quiet ctx p msg =
        with_deadline-Quiet seen sees.connections ctx p _ (λ c r. sees.estimate_gas r c msg)

    nonce_at-Quiet : (ctx : Ctx) (p : ℕ) (a : Address) → Quiet net seen (nonce_at net ctx p a true)
    unfolding nonce_at
    nonce_at-Quiet ctx p a =
        with_deadline-Quiet seen sees.connections ctx p _ (λ c r. sees.pending_nonce_at r c a)

    send_transaction-Attempts :
        (ctx : Ctx) (p : ℕ) (t : Signed) (s : Net W Conn)
        → Saw (Attempts t) (seen s.world) (seen (send_transaction net ctx p t s).1.world)
    unfolding send_transaction with_deadline
    send_transaction-Attempts ctx p t s =
        with_client-Attempts net seen sees.connections t _ (λ r w. sees.send_transaction r _ t w) _
          p s

  module _ (fl : Float64) (lib : AbiLib Address) where
    -- No transaction, or one or two times the same: signed with the key, to the contract and of no value.
    pub data Pays (p : Submitter fl net lib) (key : net.Key) : List Signed → Type 0 where
      unpaid : Pays p key []
      paid :
          {t : Signed} {sent : List Signed} (tx : Transaction Address)
          → net.sign_tx p.chain_id key tx ≡ ok t
          → tx.to ≡ p.abi.addr
          → tx.value ≡ 0
          → Attempts t sent
          → Pays p key sent

    module _ (seen : W → List Signed) (sees : SeesTransactions seen) where
      -- The end of `SubmitMine`: the transaction is signed and sent.
      sign_and_send-Pays :
          (ctx : Ctx) (p : Submitter fl net lib) (key : net.Key) (tx : Transaction Address)
          (b : List Signed) (s : Net W Conn)
          → seen s.world ≡ b
          → tx.to ≡ p.abi.addr
          → tx.value ≡ 0
          → Saw (Pays p key) b (
              seen
                ((wrapping "sign: %w" (lift (net.sign_tx p.chain_id key tx)) >>= λ t.
                    wrapping "broadcast: %w" (send_transaction net ctx p.submit_client t)
                    >> pure (net.hash_of t))
                  s).1.world)
      sign_and_send-Pays ctx p key tx b s quiet to value =
          let P : Result net.Hash × Net W Conn → Type 0 =
            λ out. Saw (Pays p key) b (seen out.1.world) in
          wrapping_rule P "sign: %w" (lift (net.sign_tx p.chain_id key tx)) _ s
            (λ t signs.
              let send = send_transaction net ctx p.submit_client t in
              let tried : P (ok (net.hash_of t), (send s).1) =
                Saw-map
                  (Saw-after quiet (send_transaction-Attempts seen sees ctx p.submit_client t s))
                  (λ l. paid tx signs to value) in
              wrapping_rule P "broadcast: %w" send _ s (λ _ _. tried) (λ _ _. tried) (λ _ _. tried))
            (λ _ _. Saw-nothing quiet unpaid) (λ _ _. Saw-nothing quiet unpaid)

      pub submit_mine-Pays :
          (ctx : Ctx) (p : Submitter fl net lib) (q : SubmitParams fl net lib) (s : Net W Conn)
          → Saw (Pays p q.key) (seen s.world) (seen (submit_mine fl net lib ctx p q s).1.world)
      unfolding submit_mine mine_tx
      submit_mine-Pays ctx p q s =
          let P : Result net.Hash × Net W Conn → Type 0 =
            λ out. Saw (Pays p q.key) (seen s.world) (seen out.1.world) in
          let ask_fees = suggest_fees net ctx p.client in
          let s₁ = (ask_fees s).1 in
          let quiet₁ : seen s₁.world ≡ seen s.world = suggest_fees-Quiet seen sees ctx p.client s in
          wrapping_rule P "pack mine: %w" (lift (pack_mine lib p.abi q.nonce)) _ s
            (λ input _.
              wrapping_rule P "suggest fees: %w" ask_fees _ s
                (λ f _.
                  let msg = call_msg fl net lib p q input f.0 f.1 in
                  let ask : M net ℕ =
                    handle (estimate_gas net ctx p.client msg) pure (λ _. pure p.min_gas) in
                  let s₂ = (ask s₁).1 in
                  let quiet₂ : seen s₂.world ≡ seen s.world =
                    handle-Quiet net seen (estimate_gas net ctx p.client msg) pure _
                      (estimate_gas-Quiet seen sees ctx p.client msg) (λ _ _. refl) (λ _ _. refl) s₁
                    ∙ quiet₁ in
                  let ask_nonce = nonce_at net ctx p.client q.from true in
                  let s₃ = (ask_nonce s₂).1 in
                  let quiet₃ : seen s₃.world ≡ seen s.world =
                    nonce_at-Quiet seen sees ctx p.client q.from s₂ ∙ quiet₂ in
                  resume_rule P (ask s₁).0 _ _ s₂
                    (λ estimate _.
                      wrapping_rule P "pending nonce: %w" ask_nonce _ s₂
                        (λ nonce _.
                          sign_and_send-Pays ctx p q.key
                            (mine_tx fl net lib p q input f.0 f.1 estimate nonce) (seen s.world) s₃
                            quiet₃ refl refl)
                        (λ _ _. Saw-nothing quiet₃ unpaid) (λ _ _. Saw-nothing quiet₃ unpaid))
                    (λ _ _. Saw-nothing quiet₂ unpaid) (λ _ _. Saw-nothing quiet₂ unpaid))
                (λ _ _. Saw-nothing quiet₁ unpaid) (λ _ _. Saw-nothing quiet₁ unpaid))
            (λ _ _. Saw-nothing refl unpaid) (λ _ _. Saw-nothing refl unpaid)
