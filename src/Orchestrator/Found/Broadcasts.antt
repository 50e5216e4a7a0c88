-- ===== src/Orchestrator/Found/Broadcasts.antt =====
-- internal/orchestrator/engine.go: the submission that `onFound` makes for a new nonce.
use hash256_miner.Base.{
  ℕ, Option, some, arith, ◌≤◌, ◌<◌, ◌%◌, ◌^◌, ◌&&◌, leb, ltb, Bool-cases, inl, inr, ok-injective,
  ◌≡◌, none, ◌∷◌, ◌++◌, Bytes, codes, to_lower, String, Err, wrap, Result, ok, err, panic,
  resume_rule,
}
use hash256_miner.Chain.Client.{Net}
use hash256_miner.Chain.Client.Calls.{block_number}
use hash256_miner.Chain.Reader.{mints_in_block}
use hash256_miner.Chain.Submitter.{SubmitParams, submit_mine}
use hash256_miner.Orchestrator.Protocol.{WorkerEvent}
use hash256_miner.Orchestrator.Engine.{near_cap, Env, Miner, Engine, Sys}
use hash256_miner.Orchestrator.Found.{bump_of, bump_factor, params_of, broadcast}

module _ (env : Env) where
  open env use {fl, net, lib, host}
  open fl use {F, literal}
  open net use {W, Ctx, Conn, Address, Key, Hash}

  -- The key of the map: the account's address in small letters, a colon, and the nonce's text.
  abbrev pub key_of : Miner Address Key → WorkerEvent F → Bytes
  key_of acc ev = to_lower (host.addr_hex acc.account.address) ++ codes ":" ++ ev.nonce

  -- The state with the key in the map.
  abbrev pub recorded : Bytes → Sys env → Sys env
  recorded key s = record s { engine = record s.engine { submitted = key ∷ s.engine.submitted } }

  -- The parameters of a submission for an account: its key and address, no nonce, the configured tip and
  -- its factor.
  abbrev pub params_for : Engine env → Miner Address Key → F → SubmitParams fl net lib
  params_for e acc bump = record {
    key = acc.account.private_key;
    from = acc.account.address;
    nonce = none;
    tip_cap_gwei = e.cfg.mining.max_priority_fee_gwei;
    bump_factor = bump;
  }

  -- The mints in the block `head`, asked for behind the number of that block.
  abbrev pub mints_at : Ctx → ℕ → Sys env → Result (Option ℕ) × Net W Conn
  mints_at ctx head s =
      mints_in_block net lib ctx s.engine.reader (some head)
        (block_number net ctx s.engine.reader.client s.chain).1

  -- The low 64 bits of the mints, as a signed number, are 7 or more.
  abbrev pub IsCrowded : ℕ → Type 0
  IsCrowded n = (7 ≤ n % 2 ^ 64) × (n % 2 ^ 64 < 2 ^ 63)

  -- The factor of the tip: the configured one where the mints in the block at the head are known and near
  -- its cap, and else 1.
  pub data FactorFor (ctx : Ctx) (s : Sys env) : F → Type 0 where
    no_head :
        {e : Err}
        → (block_number net ctx s.engine.reader.client s.chain).0 ≡ err e
        → FactorFor ctx s (literal 1 1)
    no_mints :
        {head : ℕ} {e : Err}
        → (block_number net ctx s.engine.reader.client s.chain).0 ≡ ok head
        → (mints_at ctx head s).0 ≡ err e
        → FactorFor ctx s (literal 1 1)
    nil_mints :
        {head : ℕ}
        → (block_number net ctx s.engine.reader.client s.chain).0 ≡ ok head
        → (mints_at ctx head s).0 ≡ ok none
        → FactorFor ctx s (literal 1 1)
    room :
        {head mints : ℕ}
        → (block_number net ctx s.engine.reader.client s.chain).0 ≡ ok head
        → (mints_at ctx head s).0 ≡ ok (some mints)
        → ¬ IsCrowded mints
        → FactorFor ctx s (literal 1 1)
    crowded :
        {head mints : ℕ}
        → (block_number net ctx s.engine.reader.client s.chain).0 ≡ ok head
        → (mints_at ctx head s).0 ≡ ok (some mints)
        → IsCrowded mints
        → FactorFor ctx s s.engine.cfg.mining.priority_fee_bump_near_cap

  bump_of-FactorFor :
      (ctx : Ctx) (s : Sys env) {head : ℕ} (mints : Option ℕ)
      → (block_number net ctx s.engine.reader.client s.chain).0 ≡ ok head
      → (mints_at ctx head s).0 ≡ ok mints
      → FactorFor ctx s (bump_of env s.engine mints)
  unfolding bump_of near_cap
  bump_of-FactorFor ctx s none found known = nil_mints found known
  bump_of-FactorFor ctx s (some n) found known =
      elim (Bool-cases (leb 7 (n % 2 ^ 64) && ltb (n % 2 ^ 64) (2 ^ 63))) [
        | inl full ↦ rw full (crowded found known (ground arith))
        | inr free ↦ rw free (room found known (λ c. ground arith))
      ]

  same_factor :
      {ctx : Ctx} {s : Sys env} {a b : F} → FactorFor ctx s a → ok a ≡ ok b → FactorFor ctx s b
  same_factor f h = let e = ok-injective h in rw (← e) f

  bump_factor-FactorFor :
      (ctx : Ctx) (s : Sys env) {bump : F}
      → (bump_factor env ctx s).0 ≡ ok bump
      → FactorFor ctx s bump
  unfolding bump_factor
  bump_factor-FactorFor ctx s {bump} =
      let P : Result F × Sys env → Type 0 = λ out. out.0 ≡ ok bump → FactorFor ctx s bump in
      let head_of = block_number net ctx s.engine.reader.client s.chain in
      resume_rule P head_of.0 _ _ (record s { chain = head_of.1 })
        (λ head found.
          let m = mints_at ctx head s in
          resume_rule P m.0 _ _ (record s { chain = m.1 })
            (λ mints known h. same_factor (bump_of-FactorFor ctx s mints found known) h)
            (λ e failed h. same_factor (no_mints found failed) h) (λ p e h. cc))
        (λ e failed h. same_factor (no_head failed) h) (λ p e h. cc)

  -- The submission of a new nonce's transaction in the state `t`.
  abbrev pub submission : Ctx → Miner Address Key → F → Sys env → Result Hash × Net W Conn
  submission ctx acc bump t =
      submit_mine fl net lib ctx t.engine.submitter (params_for t.engine acc bump) t.chain

  -- The state behind the choice of the tip's factor.
  abbrev pub at_submission : Ctx → Sys env → Sys env
  at_submission ctx s = (bump_factor env ctx s).1

  abbrev pub submitted_at : Ctx → Miner Address Key → F → Sys env → Sys env
  submitted_at ctx acc bump s = record (at_submission ctx s) {
    chain = (submission ctx acc bump (at_submission ctx s)).1;
  }

  -- The end of the submission: just one is made, with the factor that was chosen, and its result is the
  -- end's, an error of it behind `broadcast`.
  pub data Broadcasted (ctx : Ctx) (acc : Miner Address Key) (s : Sys env)
      : Result Hash × Sys env → Type 0 where
    no_factor :
        {e : Err}
        → (bump_factor env ctx s).0 ≡ err e
        → Broadcasted ctx acc s (err e, at_submission ctx s)
    factor_died :
        {p : String}
        → (bump_factor env ctx s).0 ≡ panic p
        → Broadcasted ctx acc s (panic p, at_submission ctx s)
    not_sent :
        {bump : F} {e : Err}
        → (bump_factor env ctx s).0 ≡ ok bump
        → FactorFor ctx s bump
        → (submission ctx acc bump (at_submission ctx s)).0 ≡ err e
        → Broadcasted ctx acc s (err (wrap "broadcast: %w" e), submitted_at ctx acc bump s)
    send_died :
        {bump : F} {p : String}
        → (bump_factor env ctx s).0 ≡ ok bump
        → FactorFor ctx s bump
        → (submission ctx acc bump (at_submission ctx s)).0 ≡ panic p
        → Broadcasted ctx acc s (panic p, submitted_at ctx acc bump s)
    sent :
        {bump : F} {tx : Hash}
        → (bump_factor env ctx s).0 ≡ ok bump
        → FactorFor ctx s bump
        → (submission ctx acc bump (at_submission ctx s)).0 ≡ ok tx
        → Broadcasted ctx acc s (ok tx, submitted_at ctx acc bump s)

  pub broadcast-Broadcasted :
      (ctx : Ctx) (acc : Miner Address Key) (s : Sys env)
      → Broadcasted ctx acc s (broadcast env ctx acc s)
  unfolding broadcast params_of
  broadcast-Broadcasted ctx acc s =
      let P = Broadcasted ctx acc s in
      resume_rule P (bump_factor env ctx s).0 _ _ (at_submission ctx s)
        (λ bump chosen.
          let factor = bump_factor-FactorFor ctx s chosen in
          let r = submission ctx acc bump (at_submission ctx s) in
          resume_rule P r.0 _ _ (submitted_at ctx acc bump s) (λ tx e. sent chosen factor e)
            (λ x e. not_sent chosen factor e) (λ p e. send_died chosen factor e))
        (λ e failed. no_factor failed) (λ p died. factor_died died)
