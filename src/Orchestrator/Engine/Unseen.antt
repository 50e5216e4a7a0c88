-- ===== src/Orchestrator/Engine/Unseen.antt =====
-- internal/orchestrator/engine.go: the calls of the contract and of the workers that an observer of the world
-- does not see.
use hash256_miner.Base.{
  ℕ, ◌≡◌, refl, Bytes, String, Result, Option, Bool, Bool-cases, inl, inr, text_eq, to_lower, codes,
  ◌==◌, resume_rule, wrapping_rule, ◌∙◌, pure, ◌>>=◌, wrapping, lift,
}
use hash256_miner.Chain.Client.Calls.{call_contract, with_deadline}
use hash256_miner.Chain.Client.Quiet.{Unseen, Quiet, handle-Quiet, seq-Quiet, with_client-Quiet}
use hash256_miner.Chain.Abi.{
  pack_get_challenge, unpack_challenge, pack_mining_state, unpack_mining_state, pack_mints_in_block,
  unpack_mints_in_block,
}
use hash256_miner.Chain.Reader.{Reader, get_challenge, mining_state, mints_in_block}
use hash256_miner.Wallet.Manager.{primary, count}
use hash256_miner.Orchestrator.Codec.{random_prefix24_hex}
use hash256_miner.Orchestrator.Protocol.{Command, WorkerMode}
use hash256_miner.Orchestrator.Engine.{
  Env, Miner, Sys, on_world, cache_challenge, poll_state, start_job, detect_gpu, resolve_mode,
  get_challenge_for,
}

module _ {L : Type 0} (env : Env) (seen : env.net.W → L) where
  open env use {net, lib, host}
  open net use {W, Ctx, Conn, Address, Key}

  -- Neither a connection nor a call of the contract is seen.
  pub record UnseenViews : Type 0 where
    pub connections : Unseen net seen
    pub call_contract :
        (r : Conn) (ctx : Ctx) (to : Address) (input : Bytes) (w : W)
        → seen (net.call_contract r ctx to input w).1 ≡ seen w

  -- Neither the random source nor the start of a worker, its events and its stop are seen.
  pub record UnseenWorkers : Type 0 where
    pub rand_read : (n : ℕ) (w : W) → seen (host.rand_read n w).1 ≡ seen w
    pub start_worker :
        (ctx : Ctx) (bin : Bytes) (w : W) → seen (host.start_worker ctx bin w).1 ≡ seen w
    pub receive : (id : ℕ) (w : W) → seen (host.receive id w).1 ≡ seen w
    pub stop_worker : (id : ℕ) (w : W) → seen (host.stop_worker id w).1 ≡ seen w

  module _ (views : UnseenViews) where
    -- A view call of the contract.
    view-Quiet :
        {A : Type 0} (ctx : Ctx) (p : ℕ) (to : Address) (text : String) (input : Result Bytes)
        (read : Bytes → Result A)
        → Quiet net seen
            (do i ← lift input; res ← wrapping text (call_contract net ctx p to i); lift (read res))
    unfolding call_contract with_deadline
    view-Quiet ctx p to text input read =
        seq-Quiet net seen (lift input) _ (λ _. refl)
          (λ i.
            seq-Quiet net seen (wrapping text (call_contract net ctx p to i)) _
              (handle-Quiet net seen (call_contract net ctx p to i) pure _
                (λ s.
                  with_client-Quiet net seen views.connections _ p _
                    (λ r w. views.call_contract r _ to i w) s)
                (λ _ _. refl) (λ _ _. refl))
              (λ _ _. refl))

    get_challenge-Quiet :
        (ctx : Ctx) (r : Reader net lib) (addr : Address)
        → Quiet net seen (get_challenge net lib ctx r addr)
    unfolding get_challenge
    get_challenge-Quiet ctx r addr =
        view-Quiet ctx r.client r.abi.addr "getChallenge call: %w"
          (pack_get_challenge lib r.abi addr) (unpack_challenge lib r.abi)

    mining_state-Quiet :
        (ctx : Ctx) (r : Reader net lib) → Quiet net seen (mining_state net lib ctx r)
    unfolding mining_state
    mining_state-Quiet ctx r =
        view-Quiet ctx r.client r.abi.addr "miningState call: %w" (pack_mining_state lib r.abi)
          (unpack_mining_state lib r.abi)

    pub mints_in_block-Quiet :
        (ctx : Ctx) (r : Reader net lib) (block : Option ℕ)
        → Quiet net seen (mints_in_block net lib ctx r block)
    unfolding mints_in_block
    mints_in_block-Quiet ctx r block =
        view-Quiet ctx r.client r.abi.addr "mintsInBlock call: %w"
          (pack_mints_in_block lib r.abi block) (unpack_mints_in_block lib r.abi)

    pub ask-unseen :
        (ctx : Ctx) (addr : Address) (s : Sys env)
        → seen (get_challenge_for env ctx addr s).1.chain.world ≡ seen s.chain.world
    unfolding get_challenge_for
    ask-unseen ctx addr s =
        let r = get_challenge net lib ctx s.engine.reader addr s.chain in
        let quiet : seen r.1.world ≡ seen s.chain.world =
          get_challenge-Quiet ctx s.engine.reader addr s.chain in
        resume_rule (λ out. seen out.1.chain.world ≡ seen s.chain.world) r.0 _ _
          (record s { chain = r.1 }) (λ _ _. quiet) (λ _ _. quiet) (λ _ _. quiet)

    cache_challenge-unseen :
        (ctx : Ctx) (s : Sys env)
        → seen (cache_challenge env ctx s).1.chain.world ≡ seen s.chain.world
    unfolding cache_challenge
    cache_challenge-unseen ctx s =
        let P : Result (Unit {0}) × Sys env → Type 0 =
          λ out. seen out.1.chain.world ≡ seen s.chain.world in
        resume_rule P (primary s.engine.wallets) _ _ s
          (λ acc _.
            let r = get_challenge net lib ctx s.engine.reader acc.address s.chain in
            let quiet = get_challenge-Quiet ctx s.engine.reader acc.address s.chain in
            resume_rule P r.0 _ _ (record s { chain = r.1 }) (λ _ _. quiet) (λ _ _. quiet)
              (λ _ _. quiet))
          (λ _ _. refl) (λ _ _. refl)

    pub poll_state-unseen :
        (ctx : Ctx) (s : Sys env) → seen (poll_state env ctx s).1.chain.world ≡ seen s.chain.world
    unfolding poll_state
    poll_state-unseen ctx s =
        let P : Result (Unit {0}) × Sys env → Type 0 =
          λ out. seen out.1.chain.world ≡ seen s.chain.world in
        let r = mining_state net lib ctx s.engine.reader s.chain in
        let quiet = mining_state-Quiet ctx s.engine.reader s.chain in
        resume_rule P r.0 _ _ (record s { chain = r.1 })
          (λ ms _. elim (Bool-cases (0 == count s.engine.wallets)) [
            | inl none_held ↦ rw none_held quiet
            | inr some_held ↦ rw some_held (cache_challenge-unseen ctx _ ∙ quiet)
          ])
          (λ _ _. quiet) (λ _ _. quiet)

  module _ (workers : UnseenWorkers) where
    detect_gpu-unseen :
        (ctx : Ctx) (s : Sys env) → seen (detect_gpu env ctx s).1.chain.world ≡ seen s.chain.world
    unfolding detect_gpu
    detect_gpu-unseen ctx s =
        let P : Result Bool × Sys env → Type 0 =
          λ out. seen out.1.chain.world ≡ seen s.chain.world in
        let started = on_world env (host.start_worker ctx s.engine.core_bin) s in
        let quiet : seen started.1.chain.world ≡ seen s.chain.world =
          workers.start_worker ctx s.engine.core_bin s.chain.world in
        resume_rule P started.0 _ _ started.1
          (λ w _.
            let got = on_world env (host.receive w) started.1 in
            let quiet' = workers.receive w started.1.chain.world ∙ quiet in
            resume_rule P got.0 _ _ got.1
              (λ ev _.
                let stopped = on_world env (host.stop_worker w) got.1 in
                let quiet'' = workers.stop_worker w got.1.chain.world ∙ quiet' in
                resume_rule P stopped.0 _ _ stopped.1 (λ _ _. quiet'') (λ _ _. quiet'')
                  (λ _ _. quiet''))
              (λ _ _. quiet') (λ _ _. quiet'))
          (λ _ _. quiet) (λ _ _. quiet)

    pub resolve_mode-unseen :
        (ctx : Ctx) (s : Sys env) → seen (resolve_mode env ctx s).1.chain.world ≡ seen s.chain.world
    unfolding resolve_mode
    resolve_mode-unseen ctx s =
        let P : Result WorkerMode × Sys env → Type 0 =
          λ out. seen out.1.chain.world ≡ seen s.chain.world in
        let mode = s.engine.cfg.miner.mode in
        let found = detect_gpu env ctx s in
        let quiet = detect_gpu-unseen ctx s in
        elim (Bool-cases (text_eq (to_lower mode) (codes "gpu"))) [
          | inl a ↦ rw a refl
          | inr a ↦ rw a (elim (Bool-cases (text_eq (to_lower mode) (codes "cpu"))) [
            | inl b ↦ rw b refl
            | inr b ↦ rw b (elim (Bool-cases (text_eq mode (codes "auto"))) [
              | inl c ↦
                  rw c
                    (resume_rule P found.0 _ _ found.1 (λ _ _. quiet) (λ _ _. quiet) (λ _ _. quiet))
              | inr c ↦ rw c refl
            ])
          ])
        ]

    pub prefix-unseen : (w : W) → seen (random_prefix24_hex host.rand_read w).1 ≡ seen w
    unfolding random_prefix24_hex
    prefix-unseen w =
        let r = host.rand_read 24 w in
        let quiet : seen r.1 ≡ seen w = workers.rand_read 24 w in
        let P : Result Bytes × W → Type 0 = λ out. seen out.1 ≡ seen w in
        wrapping_rule P "rand: %w" (host.rand_read 24) _ w (λ _ _. quiet) (λ _ _. quiet)
          (λ _ _. quiet)

    module _ (views : UnseenViews)
        (told : (id : ℕ) (cmd : Command) (w : W) → seen (host.send id cmd w).1 ≡ seen w) where
      pub start_job-unseen :
          (ctx : Ctx) (acc : Miner Address Key) (w : ℕ) (mode : WorkerMode) (s : Sys env)
          → seen (start_job env ctx acc w mode s).1.chain.world ≡ seen s.chain.world
      unfolding start_job
      start_job-unseen ctx acc w mode s =
          let P : Result (Unit {0}) × Sys env → Type 0 =
            λ out. seen out.1.chain.world ≡ seen s.chain.world in
          let ask = get_challenge_for env ctx acc.account.address in
          let s₁ = (ask s).1 in
          let quiet₁ : seen s₁.chain.world ≡ seen s.chain.world =
            ask-unseen views ctx acc.account.address s in
          let r = random_prefix24_hex host.rand_read s₁.chain.world in
          let quiet₂ : seen r.1 ≡ seen s.chain.world = prefix-unseen s₁.chain.world ∙ quiet₁ in
          wrapping_rule P "challenge for %s: %w" ask _ s
            (λ ch _.
              resume_rule P r.0 _ _ (record s₁ { chain = record s₁.chain { world = r.1 } })
                (λ prefix _. told w _ r.1 ∙ quiet₂) (λ _ _. quiet₂) (λ _ _. quiet₂))
            (λ _ _. quiet₁) (λ _ _. quiet₁)
