-- ===== src/Orchestrator/Engine/Errors.antt =====
-- internal/orchestrator/engine.go: the calls of `retargetAll`, whose errors are logged.
use hash256_miner.Base.{
  ◌≢◌, refl, List, [], ◌∷◌, Bytes, Err, Result, ok, err, panic, resume, handle, pure, fail, ◌>>=◌,
  pos,
}
use hash256_miner.Orchestrator.Codec.{difficulty_to_hex32}
use hash256_miner.Orchestrator.Protocol.{retarget}
use hash256_miner.Orchestrator.Engine.{
  Env, WorkerSlot, Sys, Act, on_world, get_difficulty, get_challenge_for, retarget_one,
  retarget_each, retarget_all,
}

module _ (env : Env) where
  open env use {net, host}
  open net use {Ctx, Address, Key}

  -- The call returns a value or panics.
  abbrev pub NoError : {A : Type 0} → Act env A → Type 0
  NoError m = (s : Sys env) (e : Err) → (m s).0 ≢ err e

  pub handle-NoError :
      {A B : Type 0} (m : Act env A) (k : A → Act env B) (h : Err → Act env B)
      → ((a : A) → NoError (k a))
      → ((e : Err) → NoError (h e))
      → NoError (handle m k h)
  handle-NoError m k h kn hn s e = go (m s).0 (m s).1
    where
      go : (r : Result _) (s' : Sys env) → (resume r k h s').0 ≢ err e
      go (ok a) s' = kn a s' e
      go (err x) s' = hn x s' e
      go (panic p) s' = λ q. cc

  -- A call without errors, and what follows it.
  pub seq-NoError :
      {A B : Type 0} (m : Act env A) (k : A → Act env B)
      → NoError m
      → ((a : A) → NoError (k a))
      → NoError (m >>= k)
  seq-NoError m k mn kn s e = go (m s).0 (m s).1 (mn s)
    where
      go : (r : Result _) (s' : Sys env) → ((x : Err) → r ≢ err x) → (resume r k fail s').0 ≢ err e
      go (ok a) s' n = kn a s' e
      go (err x) s' n = absurd (n x refl)
      go (panic p) s' n = λ q. cc

  pub pure-NoError : {A : Type 0} (a : A) → NoError (pure a)
  pure-NoError a s e = λ q. cc

  retarget_one-NoError :
      (slot : WorkerSlot Address Key) (diff : Bytes) → NoError (retarget_one env slot diff)
  unfolding retarget_one
  retarget_one-NoError slot diff s e =
      handle-NoError
        (get_challenge_for env (net.with_timeout host.background (pos 4000000000) s.chain.world)
          slot.miner.account.address)
        _ (λ _. pure tt)
        (λ ch.
          handle-NoError
            (on_world env
              (host.send slot.worker (retarget (record { challenge = ch; difficulty = diff }))))
            pure (λ _. pure tt) (λ _. pure-NoError tt) (λ _. pure-NoError tt))
        (λ _. pure-NoError tt) s e

  retarget_each-NoError :
      (slots : List (WorkerSlot Address Key)) (diff : Bytes)
      → NoError (retarget_each env slots diff)
  unfolding retarget_each
  retarget_each-NoError [] diff = pure-NoError tt
  retarget_each-NoError (slot ∷ slots) diff =
      seq-NoError (retarget_one env slot diff) (λ _. retarget_each env slots diff)
        (retarget_one-NoError slot diff) (λ _. retarget_each-NoError slots diff)

  pub retarget_all-NoError : NoError (retarget_all env)
  unfolding retarget_all
  retarget_all-NoError s =
      retarget_each-NoError s.engine.workers (difficulty_to_hex32 (get_difficulty env s.engine)) s
