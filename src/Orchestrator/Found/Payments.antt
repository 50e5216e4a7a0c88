-- ===== src/Orchestrator/Found/Payments.antt =====
-- internal/orchestrator/engine.go: the transactions that `onFound` hands to the node, as an observer of the
-- world sees them.
use hash256_miner.Base.{
  ℕ, ◌≡◌, refl, sym, ap, ◌∙◌, false, some, List, [], ◌∷◌, ◌++◌, append-nil, Bytes, Result,
  resume_rule, wrapping_rule, Bool-cases, inl, inr,
}
use hash256_miner.Chain.Client.Quiet.{QuietCall}
use hash256_miner.Chain.Client.Calls.{block_number}
use hash256_miner.Chain.Client.Attempts.{Saw, Saw-nothing, Saw-after, Saw-until, Saw-map}
use hash256_miner.Chain.Reader.{mints_in_block}
use hash256_miner.Chain.Submitter.{Submitter, submit_mine}
use hash256_miner.Chain.Submitter.Attempts.{
  SeesTransactions, Pays, unpaid, submit_mine-Pays, with_deadline-Quiet,
}
use hash256_miner.Orchestrator.Protocol.{Command, WorkerEvent}
use hash256_miner.Orchestrator.Engine.{Env, Miner, Sys, is_submitted, resolve_mode, start_job}
use hash256_miner.Orchestrator.Engine.Unseen.{
  start_job-unseen, UnseenViews, UnseenWorkers, mints_in_block-Quiet, resolve_mode-unseen,
}
use hash256_miner.Orchestrator.Found.{
  accept_nonce, bump_factor, params_of, broadcast, submit_found, on_found,
}
use hash256_miner.Orchestrator.Found.Once.{bump_factor-Keeps, key_of, submit_found-Keeps}

module _ (env : Env) where
  open env use {fl, net, lib, host}
  open net use {W, Ctx, Conn, Address, Key, Hash, Signed}

  -- The observer sees each transaction that is handed to a node, and no other call of `onFound`.
  pub record SeesPayments (seen : W → List Signed) : Type 0 where
    pub transactions : SeesTransactions net seen
    pub views : UnseenViews env seen
    pub workers : UnseenWorkers env seen
    pub block_number : (r : Conn) (c : Ctx) → QuietCall net seen (net.block_number r c)
    pub send : (id : ℕ) (cmd : Command) → QuietCall net seen (host.send id cmd)

  -- From one map of submitted nonces to another: each key that entered it was new at that moment, and has
  -- one transaction of the account, which is handed to the node twice at most.
  pub data Payments (p : Submitter fl net lib) (key : Key)
      : List Bytes → List Bytes → List Signed → Type 0 where
    no_keys : {keys : List Bytes} → Payments p key keys keys []
    new_key :
        {keys keys' : List Bytes} {a l : List Signed} (k : Bytes)
        → is_submitted k keys ≡ false
        → Pays net fl lib p key a
        → Payments p key (k ∷ keys) keys' l
        → Payments p key keys keys' (a ++ l)

  module _ (seen : W → List Signed) where
    -- What happened between two states: the payments, and the account's submitter as it was.
    pub record PaidFor (acc : Miner Address Key) (s t : Sys env) : Type 0 where
      pub sent : List Signed
      pub grown : seen t.chain.world ≡ seen s.chain.world ++ sent
      pub payments :
          Payments s.engine.submitter acc.account.private_key s.engine.submitted t.engine.submitted
            sent
      pub submitter : t.engine.submitter ≡ s.engine.submitter

  module _ (seen : W → List Signed) (sees : SeesPayments seen) where
    abbrev Same : {A : Type 0} → Sys env → Result A × Sys env → Type 0
    Same s out = seen out.1.chain.world ≡ seen s.chain.world

    bump_factor-unseen : (ctx : Ctx) (s : Sys env) → Same s (bump_factor env ctx s)
    unfolding bump_factor block_number
    bump_factor-unseen ctx s =
        let asked = block_number net ctx s.engine.reader.client s.chain in
        let quiet : seen asked.1.world ≡ seen s.chain.world =
          with_deadline-Quiet net seen sees.views.connections ctx s.engine.reader.client _
            (λ c r. sees.block_number r c) s.chain in
        resume_rule (Same s) asked.0 _ _ (record s { chain = asked.1 })
          (λ head _.
            let m = mints_in_block net lib ctx s.engine.reader (some head) asked.1 in
            let quiet' : seen m.1.world ≡ seen s.chain.world =
              mints_in_block-Quiet env seen sees.views ctx s.engine.reader (some head) asked.1
              ∙ quiet in
            resume_rule (Same s) m.0 _ _ (record s { chain = m.1 }) (λ _ _. quiet') (λ _ _. quiet')
              (λ _ _. quiet'))
          (λ _ _. quiet) (λ _ _. quiet)

    -- What a call paid for the account.
    abbrev Paid : {A : Type 0} → Miner Address Key → Sys env → Result A × Sys env → Type 0
    Paid acc s out =
        Saw (Pays net fl lib s.engine.submitter acc.account.private_key) (seen s.chain.world)
          (seen out.1.chain.world)

    broadcast-Paid :
        (ctx : Ctx) (acc : Miner Address Key) (s : Sys env) → Paid acc s (broadcast env ctx acc s)
    unfolding broadcast params_of
    broadcast-Paid ctx acc s =
        let s₁ = (bump_factor env ctx s).1 in
        let quiet : seen s₁.chain.world ≡ seen s.chain.world = bump_factor-unseen ctx s in
        let kept : s₁.engine ≡ s.engine = bump_factor-Keeps env ctx s in
        resume_rule (Paid acc s) (bump_factor env ctx s).0 _ _ s₁
          (λ bump _.
            let q = params_of env s₁.engine acc bump in
            let r = submit_mine fl net lib ctx s₁.engine.submitter q s₁.chain in
            let paid : Paid acc s (r.0, record s₁ { chain = r.1 }) =
              Saw-map
                (Saw-after quiet (
                  submit_mine-Pays net fl lib seen sees.transactions ctx s₁.engine.submitter q
                    s₁.chain))
                (λ l p. rw kept at p) in
            resume_rule (Paid acc s) r.0 _ _ (record s₁ { chain = r.1 }) (λ _ _. paid) (λ _ _. paid)
              (λ _ _. paid))
          (λ _ _. Saw-nothing quiet unpaid) (λ _ _. Saw-nothing quiet unpaid)

    submit_found-Paid :
        (ctx : Ctx) (acc : Miner Address Key) (w : ℕ) (nonce : Bytes) (s : Sys env)
        → Paid acc s (submit_found env ctx acc w nonce s)
    unfolding submit_found
    submit_found-Paid ctx acc w nonce s =
        let b = broadcast env ctx acc s in
        let paid = broadcast-Paid ctx acc s in
        let m = resolve_mode env host.background b.1 in
        let paid' =
          Saw-until paid (resolve_mode-unseen env seen sees.workers host.background b.1) in
        resume_rule (Paid acc s) b.0 _ _ b.1
          (λ tx _.
            resume_rule (Paid acc s) m.0 _ _ m.1
              (λ mode _.
                let paid'' = Saw-until paid' (
                  start_job-unseen env seen sees.workers sees.views sees.send ctx acc w mode m.1) in
                wrapping_rule (Paid acc s) "restart job: %w" (start_job env ctx acc w mode) _ m.1
                  (λ _ _. paid'') (λ _ _. paid'') (λ _ _. paid''))
              (λ _ _. paid') (λ _ _. paid'))
          (λ _ _. paid) (λ _ _. paid)

    none_paid : {acc : Miner Address Key} {s t : Sys env} → t ≡ s → PaidFor seen acc s t
    none_paid {s = s} e = rw e (record {
      sent = [];
      grown = sym (append-nil (seen s.chain.world));
      payments = no_keys;
      submitter = refl;
    })

    pub on_found-PaidFor :
        (ctx : Ctx) (acc : Miner Address Key) (w : ℕ) (ev : WorkerEvent fl.F) (s : Sys env)
        → PaidFor seen acc s (on_found env ctx acc w ev s).1
    unfolding on_found
    on_found-PaidFor ctx acc w ev s =
        let key = key_of env acc ev in
        resume_rule (λ out. PaidFor seen acc s out.1) (accept_nonce env s.engine ev.nonce) _ _ s
          (λ nonce _. elim (Bool-cases (is_submitted key s.engine.submitted)) [
            | inl again ↦ rw again (none_paid refl)
            | inr new ↦ rw new (
                let s' : Sys env = record s {
                  engine = record s.engine { submitted = key ∷ s.engine.submitted };
                } in
                let paid = submit_found-Paid ctx acc w nonce s' in
                let kept = submit_found-Keeps env ctx acc w nonce s' in
                record {
                  sent = paid.new ++ [];
                  grown =
                      paid.grown ∙ ap (λ l. seen s.chain.world ++ l) (sym (append-nil paid.new));
                  payments = rw kept (new_key key new paid.what no_keys);
                  submitter = ap (λ e. e.submitter) kept;
                })
          ])
          (λ _ _. none_paid refl) (λ _ _. none_paid refl)
