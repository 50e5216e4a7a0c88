-- ===== src/Orchestrator/Found/Sent.antt =====
-- internal/orchestrator/engine.go: the transaction that `onFound` returns.
use hash256_miner.Base.{
  ℕ, ◌≡◌, ◌≢◌, refl, Bool, true, false, none, some, ◌∷◌, Bytes, ok, lift, wrapping, pure, ◌>>◌,
  >>=-ok, wrapping-ok, if◌then◌else◌,
}
use hash256_miner.Std.BigInt.{set_bytes}
use hash256_miner.Chain.Client.{Net}
use hash256_miner.Chain.Abi.{pack_mine}
use hash256_miner.Chain.Submitter.{submit_mine}
use hash256_miner.Chain.Submitter.Gas.{submit_mine-packed}
use hash256_miner.Orchestrator.Protocol.{WorkerEvent}
use hash256_miner.Orchestrator.Engine.{
  Env, Miner, Engine, Sys, on_chain, store, is_submitted, resolve_mode, start_job,
}
use hash256_miner.Orchestrator.Found.{
  submitted_key, accept_nonce, bump_factor, params_of, broadcast, submit_found, on_found,
}
use hash256_miner.Orchestrator.Found.Verify.{Accepted, accept_nonce_sound}
use hash256_miner.Orchestrator.Found.Once.{bump_factor-Keeps}

some_pair : {A B : Type 0} {x y : A × B} → ok (some x) ≡ ok (some y) → x ≡ y
some_pair h = cc

module _ (env : Env) where
  open env use {fl, net, lib, host}
  open fl use {F}
  open net use {W, Ctx, Conn, Address, Key, Hash}

  -- The submission behind a transaction.
  record Broadcast (ctx : Ctx) (acc : Miner Address Key) (e : Engine env) (tx : Hash) : Type 0 where
    pub bump : F
    pub at_send : Net W Conn
    pub sends :
        (submit_mine fl net lib ctx e.submitter (params_of env e acc bump) at_send).0 ≡ ok tx

  at_engine :
      (ctx : Ctx) (acc : Miner Address Key) (e e' : Engine env)
      → e' ≡ e
      → (bump : F) (c : Net W Conn) {tx : Hash}
      → (submit_mine fl net lib ctx e'.submitter (params_of env e' acc bump) c).0 ≡ ok tx
      → Broadcast ctx acc e tx
  at_engine ctx acc e e' same bump c h =
      rw (← same) (record { bump = bump; at_send = c; sends = h })

  broadcast_sound :
      (ctx : Ctx) (acc : Miner Address Key) (s : Sys env) {tx : Hash}
      → (broadcast env ctx acc s).0 ≡ ok tx
      → Broadcast ctx acc s.engine tx
  unfolding broadcast
  broadcast_sound ctx acc s {tx} h =
      let (bump, _, r) = >>=-ok (bump_factor env ctx) _ s h in
      let s' = (bump_factor env ctx s).1 in
      let sends =
        wrapping-ok _
          (on_chain env
            (submit_mine fl net lib ctx s'.engine.submitter (params_of env s'.engine acc bump)))
          s' r in
      at_engine ctx acc s.engine s'.engine (bump_factor-Keeps env ctx s) bump s'.chain sends

  submit_found_sound :
      (ctx : Ctx) (acc : Miner Address Key) (w : ℕ) (nonce : Bytes) (s : Sys env) {out : Hash × ℕ}
      → (submit_found env ctx acc w nonce s).0 ≡ ok (some out)
      → Broadcast ctx acc s.engine out.0 × (out.1 ≡ set_bytes nonce)
  unfolding submit_found
  submit_found_sound ctx acc w nonce s {out} h =
      let (tx, sent, r₁) = >>=-ok (broadcast env ctx acc) _ s h in
      let (mode, _, r₂) = >>=-ok (resolve_mode env host.background) _ _ r₁ in
      let (_, _, r₃) = >>=-ok (wrapping "restart job: %w" (start_job env ctx acc w mode)) _ _ r₂ in
      let same = some_pair r₃ in rw (← same) (broadcast_sound ctx acc s sent, refl)

  -- What `onFound` has checked and done when it returns a transaction to watch.
  pub record Found (ctx : Ctx) (acc : Miner Address Key) (ev : WorkerEvent F) (e : Engine env)
      (tx : Hash) (n : ℕ) : Type 0 where
    pub nonce : Bytes
    pub accepted : Accepted env e ev.nonce nonce
    pub new :
        is_submitted (submitted_key (host.addr_hex acc.account.address) ev.nonce) e.submitted
        ≡ false
    pub bump : F
    pub at_send : Net W Conn
    pub sends :
        (submit_mine fl net lib ctx e.submitter (params_of env e acc bump) at_send).0 ≡ ok tx
    pub watched : n ≡ set_bytes nonce

  new_nonce :
      (ctx : Ctx) (acc : Miner Address Key) (w : ℕ) (ev : WorkerEvent F) (s : Sys env)
      (nonce : Bytes) {tx : Hash} {n : ℕ}
      → accept_nonce env s.engine ev.nonce ≡ ok nonce
      → (b : Bool)
      → is_submitted (submitted_key (host.addr_hex acc.account.address) ev.nonce) s.engine.submitted
        ≡ b
      → ((if b
            then pure none
            else (store env (record s.engine {
              submitted =
                  submitted_key (host.addr_hex acc.account.address) ev.nonce ∷ s.engine.submitted;
            })
                >> submit_found env ctx acc w nonce))
          s).0
        ≡ ok (some (tx, n))
      → Found ctx acc ev s.engine tx n
  unfolding params_of
  new_nonce ctx acc w ev s nonce accepted true known h = cc
  new_nonce ctx acc w ev s nonce accepted false new h =
      let s' : Sys env = record s {
        engine = record s.engine {
          submitted =
              submitted_key (host.addr_hex acc.account.address) ev.nonce ∷ s.engine.submitted;
        };
      } in
      let (sent, watched) = submit_found_sound ctx acc w nonce s' h in
      record {
        nonce = nonce;
        accepted = accept_nonce_sound env s.engine ev.nonce accepted;
        new = new;
        bump = sent.bump;
        at_send = sent.at_send;
        sends = sent.sends;
        watched = watched;
      }

  -- When `onFound` returns a transaction, the nonce was accepted, it was new, and a submission in
  -- the name of the account returned that transaction; the nonce that is watched is the accepted
  -- one.
  pub on_found_sound :
      (ctx : Ctx) (acc : Miner Address Key) (w : ℕ) (ev : WorkerEvent F) (s : Sys env) {tx : Hash}
      {n : ℕ}
      → (on_found env ctx acc w ev s).0 ≡ ok (some (tx, n))
      → Found ctx acc ev s.engine tx n
  unfolding on_found
  on_found_sound ctx acc w ev s {tx} {n} h =
      let (nonce, accepted, r) =
        >>=-ok (lift {W = Sys env} (accept_nonce env s.engine ev.nonce)) _ s h in
      new_nonce ctx acc w ev s nonce accepted
        (is_submitted (submitted_key (host.addr_hex acc.account.address) ev.nonce)
          s.engine.submitted)
        refl r

  -- Where packing a nil nonce does not succeed, no found nonce is ever broadcast: `onFound` never
  -- returns a transaction.
  pub on_found_never :
      (ctx : Ctx) (acc : Miner Address Key) (w : ℕ) (ev : WorkerEvent F) (s : Sys env)
      → ((input : Bytes) → pack_mine lib s.engine.submitter.abi none ≢ ok input)
      → (out : Hash × ℕ) → (on_found env ctx acc w ev s).0 ≢ ok (some out)
  unfolding params_of
  on_found_never ctx acc w ev s bad out h =
      let f = on_found_sound ctx acc w ev s h in
      let (input, packed) =
        submit_mine-packed fl net lib ctx s.engine.submitter (params_of env s.engine acc f.bump)
          f.at_send f.sends in
      bad input packed
