-- ===== src/Orchestrator/Engine.antt =====
-- internal/orchestrator/engine.go: the mining loop's state and operations. Log lines are left out.
pub mod Keeps
pub mod Poll
pub mod Errors
pub mod Unseen
pub mod Seen
pub mod Untold
pub mod Retargets
use hash256_miner.Base.{
  ℕ, zero, suc, ◌+◌, ◌%◌, ◌^◌, Bool, true, false, ◌&&◌, List, [], ◌∷◌, ◌++◌, Bytes, codes, text_eq,
  to_lower, trim_0x, Option, none, some, Err, errorf, wrap, Result, ok, err, panic, Exec, pure,
  fail, crash, lift, handle, wrapping, ◌>>=◌, ◌>>◌, length, get_elem?, replicate, ltb, leb, ◌==◌,
  if◌then◌else◌, ℤ, pos, negsuc, is_positive,
}
use hash256_miner.Std.Float64.{Float64}
use hash256_miner.Std.Hex.{hex_decode}
use hash256_miner.Std.BigInt.{set_bytes}
use hash256_miner.Std.Slice.{copy_at}
use hash256_miner.Config.{Config}
use hash256_miner.Chain.Rpc.{Rpc, Receipt}
use hash256_miner.Chain.Client as Chain
use hash256_miner.Chain.Client.{Net}
use hash256_miner.Chain.Client.Calls.{block_number}
use hash256_miner.Chain.Abi.{AbiLib, MiningState}
use hash256_miner.Chain.Reader.{Reader, mining_state, get_challenge, mints_in_block}
use hash256_miner.Chain.Submitter.{Submitter, SubmitParams, submit_mine}
use hash256_miner.Wallet.Manager.{Account, Manager, primary, count}
use hash256_miner.Orchestrator.Codec.{difficulty_to_hex32, challenge_to_hex32, random_prefix24_hex}
use hash256_miner.Orchestrator.Protocol.{
  WorkerMode, cpu, gpu, mode_text, StartCmd, RetargetCmd, Command, start, retarget, GpuDevice,
  WorkerEvent,
}

-- The interface to the workers, by number, which Process/Hosted fills, and the random source and
-- go-ethereum's address text and hash.
pub record Host (net : Rpc) (F : Type 0) : Type 0 where
  pub background : net.Ctx
  pub ctx_err : net.Ctx → net.W → Err  -- ctx.Err(), of a context that is done
  pub start_worker : net.Ctx → Bytes → Exec net.W ℕ
  pub send : ℕ → Command → Exec net.W (Unit {0})
  pub receive : ℕ → Exec net.W (Option (WorkerEvent F))  -- none: the channel is closed
  pub stop_worker : ℕ → Exec net.W (Unit {0})
  pub rand_read : ℕ → Exec net.W Bytes
  pub addr_hex : net.Address → Bytes
  pub keccak256 : Bytes → Bytes

-- Everything that the engine takes from elsewhere.
pub record Env : Type 1 where
  pub fl : Float64
  pub net : Rpc
  pub lib : AbiLib net.Address
  pub host : Host net fl.F

-- An account, with the pointer that tells it from others.
pub record Miner (Address Key : Type 0) : Type 0 where
  pub ptr : ℕ
  pub account : Account Address Key

pub record WorkerSlot (Address Key : Type 0) : Type 0 where
  pub miner : Miner Address Key
  pub worker : ℕ
  pub active_mode : WorkerMode
  pub last_hashrate : ℕ
  pub last_hashes : ℕ
  pub last_elapsed_ms : ℕ

-- Whether a key is in the map of submitted nonces.
unfoldable pub is_submitted : Bytes → List Bytes → Bool
is_submitted key [] = false
is_submitted key (k ∷ keys) = if text_eq k key then true else is_submitted key keys

-- `mib.Int64() >= 7`: the low 64 bits, as a signed number.
unfoldable pub near_cap : ℕ → Bool
near_cap n = leb 7 (n % 2 ^ 64) && ltb (n % 2 ^ 64) (2 ^ 63)

module _ (env : Env) where
  open env use {fl, net, lib, host}
  open fl use {F, literal, to_uint64}
  open net use {W, Ctx, Conn, Address, Key, Hash}

  -- The times in the map of submitted nonces are never read; the map is the list of its keys. An
  -- `atomic.Value` without a value is `none`, and a nil pointer inside it `some none`.
  pub record Engine : Type 0 where
    pub cfg : Config F
    pub reader : Reader net lib
    pub submitter : Submitter fl net lib
    pub wallets : Manager Address Key
    pub core_bin : Bytes
    pub workers : List (WorkerSlot Address Key)
    pub challenge : Option Bytes
    pub difficulty : Option (Option ℕ)
    pub epoch : Option (Option ℕ)
    pub gpu_available : Bool
    pub gpu_device_list : List GpuDevice
    pub submitted : List Bytes
    pub hashrate_acc : ℕ
    pub hashes_acc : ℕ

  -- The engine, and the clients and the world that it works on.
  pub record Sys : Type 0 where
    pub engine : Engine
    pub chain : Net W Conn

  abbrev pub Act : Type 0 → Type 0
  Act A = Exec Sys A

  abbrev pub on_chain : {A : Type 0} → Exec (Net W Conn) A → Act A
  on_chain m s = ((m s.chain).0, record s { chain = (m s.chain).1 })

  abbrev pub on_world : {A : Type 0} → Exec W A → Act A
  on_world m = on_chain (Chain.on_world net m)

  abbrev pub engine : Act Engine
  engine s = (ok s.engine, s)

  abbrev pub store : Engine → Act (Unit {0})
  store e s = (ok tt, record s { engine = e })

  -- `currentEpoch`, nil where nothing is stored
  unfoldable pub current_epoch : Engine → Option ℕ
  current_epoch e = elim e.epoch [ none ↦ none | some n ↦ n ]

  unfoldable pub get_difficulty : Engine → Option ℕ
  get_difficulty e = elim e.difficulty [ none ↦ some 0 | some n ↦ n ]

  -- The challenge of the primary account is cached if it can be read.
  unfoldable pub cache_challenge : Ctx → Act (Unit {0})
  cache_challenge ctx = do
    e ← engine
    acc ← lift (primary e.wallets)
    handle (on_chain (get_challenge net lib ctx e.reader acc.address))
        (λ ch. do e' ← engine; store (record e' { challenge = some ch })) (λ _. pure tt)

  -- `pollState`
  unfoldable pub poll_state : Ctx → Act (Unit {0})
  poll_state ctx = do
    e ← engine
    ms ← on_chain (mining_state net lib ctx e.reader)
    e' ← engine
    store (record e' { difficulty = some ms.difficulty; epoch = some ms.epoch })
    if 0 == count e.wallets then pure tt else cache_challenge ctx

  -- `getChallengeFor`
  unfoldable pub get_challenge_for : Ctx → Address → Act Bytes
  get_challenge_for ctx addr = do
    e ← engine
    ch ← on_chain (get_challenge net lib ctx e.reader addr)
    pure (challenge_to_hex32 ch)

  is_ready : Option (WorkerEvent F) → Bool
  is_ready none = false
  is_ready (some ev) = text_eq ev.event (codes "ready") && ltb 0 (length ev.gpu_devices)

  -- `detectGPU`: a probe worker, which is stopped on every way out.
  pub detect_gpu : Ctx → Act Bool
  detect_gpu ctx = do
    e ← engine
    handle (on_world (host.start_worker ctx e.core_bin))
        (λ w. do
          ev ← on_world (host.receive w)
          handle (on_world (host.stop_worker w)) (λ _. pure (is_ready ev))
              (λ _. pure (is_ready ev)))
        (λ _. pure false)

  -- `resolveMode`
  unfoldable pub resolve_mode : Ctx → Act WorkerMode
  resolve_mode ctx = do
    e ← engine
    let mode = e.cfg.miner.mode
    if text_eq (to_lower mode) (codes "gpu")
        then pure gpu
        else if text_eq (to_lower mode) (codes "cpu")
        then pure cpu
        else if text_eq mode (codes "auto")
        then (do found ← detect_gpu ctx; pure (if found then gpu else cpu))
        else pure cpu

  -- The device of an account, where devices are configured; `acc.Index` is a uint32.
  unfoldable pub gpu_device_for : WorkerMode → ℕ → List ℤ → Option ℤ
  gpu_device_for cpu index devices = none
  gpu_device_for gpu index devices = get_elem? devices (index % length devices)

  unfoldable pub cpu_threads_for : WorkerMode → ℤ → Option ℤ
  cpu_threads_for gpu threads = none
  cpu_threads_for cpu threads = if is_positive threads then some threads else none

  unfoldable pub start_cmd : Engine → Bytes → Bytes → ℕ → WorkerMode → StartCmd
  unfolding gpu_device_for cpu_threads_for
  start_cmd e challenge prefix index mode = record {
    challenge = challenge;
    difficulty = difficulty_to_hex32 (get_difficulty e);
    prefix = prefix;
    batch = e.cfg.miner.batch_size;
    mode = mode_text mode;
    gpu_device = gpu_device_for mode index e.cfg.miner.gpu_devices;
    cpu_threads = cpu_threads_for mode e.cfg.miner.cpu_threads;
  }

  -- `startJob`
  unfoldable pub start_job : Ctx → Miner Address Key → ℕ → WorkerMode → Act (Unit {0})
  start_job ctx acc w mode = do
    ch ← wrapping "challenge for %s: %w" (get_challenge_for ctx acc.account.address)
    e ← engine
    prefix ← on_world (random_prefix24_hex host.rand_read)
    on_world (host.send w (start (start_cmd e ch prefix acc.account.index mode)))

  -- One worker of `retargetAll`: an error is logged, and the loop goes on.
  retarget_one : WorkerSlot Address Key → Bytes → Act (Unit {0})
  retarget_one slot diff = do
    ctx ← (λ s. (ok (net.with_timeout host.background (pos 4000000000) s.chain.world), s))
    handle (get_challenge_for ctx slot.miner.account.address)
        (λ ch.
          handle
            (on_world
              (host.send slot.worker (retarget (record { challenge = ch; difficulty = diff }))))
            pure (λ _. pure tt))
        (λ _. pure tt)

  retarget_each : List (WorkerSlot Address Key) → Bytes → Act (Unit {0})
  retarget_each [] diff = pure tt
  retarget_each (slot ∷ slots) diff = retarget_one slot diff >> retarget_each slots diff

  -- `retargetAll`
  pub retarget_all : Act (Unit {0})
  retarget_all = do e ← engine; retarget_each e.workers (difficulty_to_hex32 (get_difficulty e))
