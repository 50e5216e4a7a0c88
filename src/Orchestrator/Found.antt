-- ===== src/Orchestrator/Found.antt =====
-- internal/orchestrator/engine.go: `onFound` and `verifyLocal`, what the engine does with a nonce that
-- a worker reports. The mutex around the map of submitted nonces makes the test and the write one step.
pub mod Verify
pub mod Once
pub mod Sent
pub mod Broadcasts
pub mod Handled
pub mod Payments
pub mod Crew
use hash256_miner.Base.{
  ℕ, Bool, true, false, Option, none, some, List, ◌∷◌, ◌++◌, Bytes, codes, to_lower, trim_0x, Err,
  errorf, Result, and_then, wrap_err, ok, err, panic, pure, fail, lift, handle, wrapping, ◌>>=◌,
  ◌>>◌, length, take, replicate, ltb, ◌==◌, if◌then◌else◌,
}
use hash256_miner.Std.Hex.{hex_decode}
use hash256_miner.Std.BigInt.{set_bytes}
use hash256_miner.Std.Slice.{copy_at}
use hash256_miner.Chain.Client.Calls.{block_number}
use hash256_miner.Chain.Reader.{mints_in_block}
use hash256_miner.Chain.Submitter.{SubmitParams, submit_mine}
use hash256_miner.Orchestrator.Protocol.{WorkerEvent}
use hash256_miner.Orchestrator.Engine.{
  Env, Miner, Engine, Act, on_chain, engine, store, get_difficulty, is_submitted, near_cap,
  resolve_mode, start_job,
}

-- `SubmittedKey`, the key of the map of submitted nonces, from an address's text.
pub submitted_key : Bytes → Bytes → Bytes
submitted_key addr nonce = to_lower addr ++ codes ":" ++ nonce

module _ (env : Env) where
  open env use {fl, net, lib, host}
  open fl use {F, literal}
  open net use {Ctx, Address, Key, Hash}

  -- The 64 bytes that are hashed: the challenge, and the nonce behind it.
  unfoldable pub proof_bytes : Bytes → Bytes → Bytes
  proof_bytes challenge nonce = copy_at (copy_at (replicate 64 0) 0 (take 32 challenge)) 32 nonce

  -- `verifyLocal`, which dereferences the target.
  unfoldable pub verify_local : Bytes → Bytes → Option ℕ → Result Bool
  unfolding proof_bytes
  verify_local challenge nonce none = panic "nil pointer dereference"
  verify_local challenge nonce (some target) =
      ok (ltb (set_bytes (host.keccak256 (proof_bytes challenge nonce))) target)

  -- The check before submission, with the cached challenge and the target.
  unfoldable pub verify_with : Option Bytes → Option ℕ → Bytes → Result (Unit {0})
  unfolding verify_local
  verify_with none target nonce = err (errorf "no challenge cached")
  verify_with (some challenge) target nonce =
      and_then (verify_local challenge nonce target)
        (λ b. if b then ok tt else err (errorf "local verify failed"))

  -- The steps of `onFound` up to the map: the bytes of an accepted nonce.
  unfoldable pub accept_nonce : Engine env → Bytes → Result Bytes
  unfolding verify_with
  accept_nonce e text =
      let digits = trim_0x text in
      if length digits == 64
      then and_then (wrap_err "decode nonce: %w" (hex_decode digits)) (λ nonce.
        if e.cfg.mining.verify_before_submit
        then and_then (verify_with e.challenge (get_difficulty env e) nonce) (λ _. ok nonce)
        else ok nonce)
      else err (errorf "invalid nonce length %d")

  unfoldable pub bump_of : Engine env → Option ℕ → F
  bump_of e none = literal 1 1
  bump_of e (some mints) =
      if near_cap mints then e.cfg.mining.priority_fee_bump_near_cap else literal 1 1

  -- The tip's factor, 1.0 where the block cannot be asked about.
  unfoldable pub bump_factor : Ctx → Act env F
  bump_factor ctx = do
    e ← engine env
    handle (on_chain env (block_number net ctx e.reader.client))
        (λ head.
          handle (on_chain env (mints_in_block net lib ctx e.reader (some head)))
            (λ mints. pure (bump_of e mints)) (λ _. pure (literal 1 1)))
        (λ _. pure (literal 1 1))

  -- The literal `chain.SubmitParams{…}`; it has no `Nonce` field, which is then nil.
  pub params_of : Engine env → Miner Address Key → F → SubmitParams fl net lib
  params_of e acc bump = record {
    key = acc.account.private_key;
    from = acc.account.address;
    nonce = none;
    tip_cap_gwei = e.cfg.mining.max_priority_fee_gwei;
    bump_factor = bump;
  }

  -- The transaction of a nonce that is new.
  unfoldable pub broadcast : Ctx → Miner Address Key → Act env Hash
  broadcast ctx acc = do
    bump ← bump_factor ctx
    e ← engine env
    wrapping "broadcast: %w"
        (on_chain env (submit_mine fl net lib ctx e.submitter (params_of e acc bump)))

  -- The rest of `onFound` behind the map: the transaction and nonce that `watchTx` is started on.
  unfoldable pub submit_found : Ctx → Miner Address Key → ℕ → Bytes → Act env (Option (Hash × ℕ))
  submit_found ctx acc w nonce = do
    tx ← broadcast ctx acc
    mode ← resolve_mode env host.background
    wrapping "restart job: %w" (start_job env ctx acc w mode)
    pure (some (tx, set_bytes nonce))

  -- `onFound`; `none` is the return for a nonce that was submitted before.
  unfoldable pub on_found :
      Ctx → Miner Address Key → ℕ → WorkerEvent F → Act env (Option (Hash × ℕ))
  on_found ctx acc w ev = do
    e ← engine env
    nonce ← lift (accept_nonce e ev.nonce)
    let key = submitted_key (host.addr_hex acc.account.address) ev.nonce
    if is_submitted key e.submitted
        then pure none
        else (store env (record e { submitted = key ∷ e.submitted })
            >> submit_found ctx acc w nonce)

  -- The first half of `onFound`, up to the end of the section under `submittedMu`: the nonce, unless its
  -- key was submitted before.
  unfoldable pub claim_found : Miner Address Key → WorkerEvent F → Act env (Option Bytes)
  claim_found acc ev = do
    e ← engine env
    nonce ← lift (accept_nonce e ev.nonce)
    let key = submitted_key (host.addr_hex acc.account.address) ev.nonce
    if is_submitted key e.submitted
        then pure none
        else (store env (record e { submitted = key ∷ e.submitted }) >> pure (some nonce))
