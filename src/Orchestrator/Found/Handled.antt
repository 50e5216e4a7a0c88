-- ===== src/Orchestrator/Found/Handled.antt =====
-- internal/orchestrator/engine.go: the ways out of `onFound`.
use hash256_miner.Base.{
  ℕ, ◌≡◌, true, false, Option, none, some, Bytes, String, Err, wrap, Result, ok, err, panic, pure,
  fail, resume, wrapping, ◌>>=◌, ◌>>◌, resume_rule, wrapping_rule, Bool-cases, inl, inr,
}
use hash256_miner.Std.BigInt.{set_bytes}
use hash256_miner.Orchestrator.Protocol.{WorkerMode, WorkerEvent}
use hash256_miner.Orchestrator.Engine.{Env, Miner, Sys, is_submitted, resolve_mode, start_job}
use hash256_miner.Orchestrator.Found.{submitted_key, accept_nonce, submit_found, on_found}
use hash256_miner.Orchestrator.Found.Verify.{Accepted, accept_nonce_sound}
use hash256_miner.Orchestrator.Found.Broadcasts.{
  key_of, recorded, submitted_at, Broadcasted, not_sent, no_factor, factor_died, send_died, sent,
  broadcast-Broadcasted,
}

module _ (env : Env) where
  open env use {fl, net, lib, host}
  open fl use {F}
  open net use {W, Ctx, Conn, Address, Key, Hash}

  -- The start of a new job behind the transaction, and what the call returns.
  pub data Restarted (ctx : Ctx) (acc : Miner Address Key) (w : ℕ) (out : Hash × ℕ) (t : Sys env)
      : Result (Option (Hash × ℕ)) × Sys env → Type 0 where
    no_mode :
        {e : Err}
        → (resolve_mode env host.background t).0 ≡ err e
        → Restarted ctx acc w out t (err e, (resolve_mode env host.background t).1)
    mode_died :
        {p : String}
        → (resolve_mode env host.background t).0 ≡ panic p
        → Restarted ctx acc w out t (panic p, (resolve_mode env host.background t).1)
    no_job :
        {mode : WorkerMode} {e : Err}
        → (resolve_mode env host.background t).0 ≡ ok mode
        → (start_job env ctx acc w mode (resolve_mode env host.background t).1).0 ≡ err e
        → Restarted ctx acc w out t (
          err (wrap "restart job: %w" e),
          (start_job env ctx acc w mode (resolve_mode env host.background t).1).1,
        )
    job_died :
        {mode : WorkerMode} {p : String}
        → (resolve_mode env host.background t).0 ≡ ok mode
        → (start_job env ctx acc w mode (resolve_mode env host.background t).1).0 ≡ panic p
        → Restarted ctx acc w out t
            (panic p, (start_job env ctx acc w mode (resolve_mode env host.background t).1).1)
    watches :
        {mode : WorkerMode}
        → (resolve_mode env host.background t).0 ≡ ok mode
        → (start_job env ctx acc w mode (resolve_mode env host.background t).1).0 ≡ ok tt
        → Restarted ctx acc w out t
            (ok (some out), (start_job env ctx acc w mode (resolve_mode env host.background t).1).1)

  -- The end of a call with a nonce that is new, from the state with its key in the map.
  pub data Submits (ctx : Ctx) (acc : Miner Address Key) (w n : ℕ) (s : Sys env)
      : Result (Option (Hash × ℕ)) × Sys env → Type 0 where
    failed :
        {e : Err} {t : Sys env}
        → Broadcasted env ctx acc s (err e, t)
        → Submits ctx acc w n s (err e, t)
    died :
        {p : String} {t : Sys env}
        → Broadcasted env ctx acc s (panic p, t)
        → Submits ctx acc w n s (panic p, t)
    goes_on :
        {tx : Hash} {t : Sys env} {out : Result (Option (Hash × ℕ)) × Sys env}
        → Broadcasted env ctx acc s (ok tx, t)
        → Restarted ctx acc w (tx, n) t out
        → Submits ctx acc w n s out

  submit_found-Submits :
      (ctx : Ctx) (acc : Miner Address Key) (w : ℕ) (nonce : Bytes) (s : Sys env)
      → Submits ctx acc w (set_bytes nonce) s (submit_found env ctx acc w nonce s)
  unfolding submit_found
  submit_found-Submits ctx acc w nonce s = goes (broadcast-Broadcasted env ctx acc s)
    where
      restarts :
          (tx : Hash) (t : Sys env)
          → Restarted ctx acc w
              (tx, set_bytes nonce)
              t
              ((do
                mode ← resolve_mode env host.background
                wrapping "restart job: %w" (start_job env ctx acc w mode)
                pure (some (tx, set_bytes nonce)))
                t)
      restarts tx t =
          let P : Result (Option (Hash × ℕ)) × Sys env → Type 0 =
            λ out. Restarted ctx acc w (tx, set_bytes nonce) t out in
          let modes = resolve_mode env host.background t in
          resume_rule P modes.0 _ _ modes.1
            (λ mode chosen.
              wrapping_rule P "restart job: %w" (start_job env ctx acc w mode) _ modes.1
                (λ _ e. watches chosen e) (λ x e. no_job chosen e) (λ p e. job_died chosen e))
            (λ e h. no_mode h) (λ p h. mode_died h)

      goes :
          {out : Result Hash × Sys env}
          → Broadcasted env ctx acc s out
          → Submits ctx acc w (set_bytes nonce) s (
              resume out.0
                (λ tx. do
                  mode ← resolve_mode env host.background
                  wrapping "restart job: %w" (start_job env ctx acc w mode)
                  pure (some (tx, set_bytes nonce)))
                fail
                out.1)
      goes (no_factor h) = failed (no_factor h)
      goes (factor_died h) = died (factor_died h)
      goes (not_sent h f e) = failed (not_sent h f e)
      goes (send_died h f e) = died (send_died h f e)
      goes (sent {bump} {tx} h f e) =
          goes_on (sent h f e) (restarts tx (submitted_at env ctx acc bump s))

  -- The end of `onFound`.
  pub data Handled (ctx : Ctx) (acc : Miner Address Key) (w : ℕ) (ev : WorkerEvent F) (s : Sys env)
      : Result (Option (Hash × ℕ)) × Sys env → Type 0 where
    not_accepted :
        {e : Err} → accept_nonce env s.engine ev.nonce ≡ err e → Handled ctx acc w ev s (err e, s)
    check_died :
        {p : String}
        → accept_nonce env s.engine ev.nonce ≡ panic p
        → Handled ctx acc w ev s (panic p, s)
    known :
        {nonce : Bytes}
        → Accepted env s.engine ev.nonce nonce
        → is_submitted (key_of env acc ev) s.engine.submitted ≡ true
        → Handled ctx acc w ev s (ok none, s)
    new :
        {nonce : Bytes} {out : Result (Option (Hash × ℕ)) × Sys env}
        → Accepted env s.engine ev.nonce nonce
        → is_submitted (key_of env acc ev) s.engine.submitted ≡ false
        → Submits ctx acc w (set_bytes nonce) (recorded env (key_of env acc ev) s) out
        → Handled ctx acc w ev s out

  -- `onFound` ends in one of these ways. A nonce that is not accepted ends it with the error or the
  -- panic of the checks, and an accepted one whose key is in the map of submitted nonces with
  -- nothing to watch; the engine and the world are then as they were. With any other accepted nonce
  -- the key is put into the map first; then just one submission is made, with the account's key and
  -- address, no nonce, the configured tip and its factor, which is the configured one where the
  -- mints in the block at the head are known and 7 or more, and else 1. If the choice of the factor
  -- or the submission fails or panics, so does the call. If the submission gives a transaction, the
  -- job is started again, and the call returns the transaction and the accepted nonce to be
  -- watched, or the error or panic of that start.
  pub on_found-Handled :
      (ctx : Ctx) (acc : Miner Address Key) (w : ℕ) (ev : WorkerEvent F) (s : Sys env)
      → Handled ctx acc w ev s (on_found env ctx acc w ev s)
  unfolding on_found submitted_key
  on_found-Handled ctx acc w ev s =
      let P : Result (Option (Hash × ℕ)) × Sys env → Type 0 = λ out. Handled ctx acc w ev s out in
      resume_rule P (accept_nonce env s.engine ev.nonce) _ _ s
        (λ nonce accepted.
          let checked = accept_nonce_sound env s.engine ev.nonce accepted in
          elim (Bool-cases (is_submitted (key_of env acc ev) s.engine.submitted)) [
            | inl is_known ↦ rw is_known (known checked is_known)
            | inr is_new ↦ rw is_new (
                new checked is_new
                  (submit_found-Submits ctx acc w nonce (recorded env (key_of env acc ev) s)))
          ])
        (λ e h. not_accepted h) (λ p h. check_died h)
