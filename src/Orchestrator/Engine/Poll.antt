-- ===== src/Orchestrator/Engine/Poll.antt =====
-- internal/orchestrator/engine.go: the engine's fields along `pollState`.
use hash256_miner.Base.{
  ◌≡◌, refl, ◌⊎◌, inl, inr, some, Bytes, Result, ok, resume_rule, >>=-run, ◌==◌, Bool-cases,
}
use hash256_miner.Chain.Client.{Net}
use hash256_miner.Chain.Abi.{MiningState}
use hash256_miner.Chain.Reader.{mining_state, get_challenge}
use hash256_miner.Wallet.Manager.{Account, primary, count}
use hash256_miner.Orchestrator.Engine.{Env, Engine, Sys, on_chain, cache_challenge, poll_state}

module _ (env : Env) where
  open env use {net, lib}
  open net use {W, Ctx, Conn, Address, Key}

  -- The challenge is the one that the contract gave for the primary account.
  pub record Cached (ctx : Ctx) (e e' : Engine env) : Type 0 where
    pub challenge : Bytes
    pub account : Account Address Key
    pub is_primary : primary e.wallets ≡ ok account
    pub at_read : Net W Conn
    pub read : (get_challenge net lib ctx e.reader account.address at_read).0 ≡ ok challenge
    pub after : e' ≡ record e { challenge = some challenge }

  -- The engine after a poll that succeeded.
  pub record Polled (ctx : Ctx) (e e' : Engine env) : Type 0 where
    pub state : MiningState
    pub at_state : Net W Conn
    pub read : (mining_state net lib ctx e.reader at_state).0 ≡ ok state
    pub polled : Engine env
    pub is_polled :
        polled ≡ record e { difficulty = some state.difficulty; epoch = some state.epoch }
    pub after : (e' ≡ polled) ⊎ Cached ctx polled e'

  cache_challenge-Cached :
      (ctx : Ctx) (s : Sys env)
      → ((cache_challenge env ctx s).1.engine ≡ s.engine)
        ⊎ Cached ctx s.engine (cache_challenge env ctx s).1.engine
  unfolding cache_challenge
  cache_challenge-Cached ctx s =
      let P : Result (Unit {0}) × Sys env → Type 0 =
        λ out. (out.1.engine ≡ s.engine) ⊎ Cached ctx s.engine out.1.engine in
      resume_rule P (primary s.engine.wallets) _ _ s
        (λ acc first.
          let r = get_challenge net lib ctx s.engine.reader acc.address s.chain in
          resume_rule P r.0 _ _ (record s { chain = r.1 })
            (λ ch found. inr (record {
              challenge = ch;
              account = acc;
              is_primary = first;
              at_read = s.chain;
              read = found;
              after = refl;
            }))
            (λ _ _. inl refl) (λ _ _. inl refl))
        (λ _ _. inl refl) (λ _ _. inl refl)

  -- After a poll that succeeds the difficulty and the epoch are those that the contract's state was
  -- read to have, the challenge is as before or the one that was read for the primary account, and
  -- every other field of the engine is as it was.
  pub poll_state-Polled :
      (ctx : Ctx) (s : Sys env) {u : Unit {0}}
      → (poll_state env ctx s).0 ≡ ok u
      → Polled ctx s.engine (poll_state env ctx s).1.engine
  unfolding poll_state
  poll_state-Polled ctx s h =
      let (ms, found, _, run) =
        >>=-run (on_chain env (mining_state net lib ctx s.engine.reader)) _ s h in
      let e : Engine env = record s.engine {
        difficulty = some ms.difficulty;
        epoch = some ms.epoch;
      } in
      let s' : Sys env = record {
        engine = e;
        chain = (mining_state net lib ctx s.engine.reader s.chain).1;
      } in
      rw run (record {
        state = ms;
        at_state = s.chain;
        read = found;
        polled = e;
        is_polled = refl;
        after = elim (Bool-cases (0 == count s.engine.wallets)) [
          | inl none_held ↦ rw none_held (inl refl)
          | inr some_held ↦ rw some_held (cache_challenge-Cached ctx s')
        ];
      })
