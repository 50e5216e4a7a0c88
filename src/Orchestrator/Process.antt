-- ===== src/Orchestrator/Process.antt =====
-- internal/orchestrator/worker.go: the worker process behind its pipes, and `readEvents`. The process and
-- its pipes are the operating system's; the two goroutines of a worker end when its pipes do, which
-- `Stop` waits for.
pub mod Lines
pub mod Hosted
use hash256_miner.Base.{
  ℕ, Bool, true, false, Option, none, some, List, [], ◌∷◌, ◌++◌, Bytes, codes, ◌⊎◌, inl, inr, Err,
  Result, ok, err, panic, Exec, pure, lift, handle, wrapping, ◌>>=◌, ◌>>◌, pos, if◌then◌else◌,
}
use hash256_miner.Std.Float64.{Float64}
use hash256_miner.Orchestrator.Protocol.{Command, WorkerEvent}
use hash256_miner.Orchestrator.Events.{Channel, new_channel, offer, close_events}

-- os/exec and `encoding/json`, on the state `W` of the system; `H` are handles of pipes and processes.
pub record Exe (W H : Type 0) : Type 0 where
  pub stdin_pipe : Bytes → Exec W H
  pub stdout_pipe : Bytes → Exec W H
  pub stderr_pipe : Bytes → Exec W H
  pub start_process : Bytes → Exec W H
  pub write : H → Bytes → Exec W (Unit {0})
  pub close : H → Exec W (Unit {0})
  pub kill : H → Exec W (Unit {0})
  pub await_readers : Exec W (Unit {0})  -- w.wg.Wait()
  pub marshal : Command → Result Bytes

-- A pipe or a process that was not made is nil.
pub record Worker (W H : Type 0) : Type 0 where
  pub path : Bytes
  pub stdin : Option H
  pub stdout : Option H
  pub stderr : Option H
  pub process : Option H
  pub readers : ℕ
  pub world : W

module _ {W H : Type 0} (exe : Exe W H) where
  open exe use {
    stdin_pipe, stdout_pipe, stderr_pipe, start_process, write, close, kill, await_readers, marshal,
  }

  abbrev pub OnWorker : Type 0 → Type 0
  OnWorker A = Exec (Worker W H) A

  abbrev pub system : {A : Type 0} → Exec W A → OnWorker A
  system m w = ((m w.world).0, record w { world = (m w.world).1 })

  abbrev update : (Worker W H → Worker W H) → OnWorker (Unit {0})
  update f w = (ok tt, f w)

  -- `NewWorker`
  unfoldable pub new_worker : Bytes → W → Worker W H
  new_worker path world = record {
    path = path;
    stdin = none;
    stdout = none;
    stderr = none;
    process = none;
    readers = 0;
    world = world;
  }

  -- `(*Worker).Start`; the pipes are stored once the process runs.
  unfoldable pub start_worker : OnWorker (Unit {0})
  start_worker = do
    path ← (λ w. (ok w.path, w))
    in_pipe ← wrapping "stdin pipe: %w" (system (stdin_pipe path))
    out_pipe ← wrapping "stdout pipe: %w" (system (stdout_pipe path))
    err_pipe ← wrapping "stderr pipe: %w" (system (stderr_pipe path))
    p ← wrapping "start worker %s: %w" (system (start_process path))
    update (λ w. record w {
      stdin = some in_pipe;
      stdout = some out_pipe;
      stderr = some err_pipe;
      process = some p;
      readers = 2;
    })

  write_to : Option H → Bytes → OnWorker (Unit {0})
  write_to none raw w = (panic "nil pointer dereference", w)
  write_to (some h) raw w = system (write h raw) w

  -- `(*Worker).Send`
  pub send_command : Command → OnWorker (Unit {0})
  unfolding write_to
  send_command cmd = do
    raw ← wrapping "marshal cmd: %w" (lift (marshal cmd))
    w ← (λ v. (ok v, v))
    wrapping "write stdin: %w" (write_to w.stdin (raw ++ (10 ∷ [])))

  -- `_ = call()` where there is something to call.
  ignoring : (H → Exec W (Unit {0})) → Option H → OnWorker (Unit {0})
  ignoring call none = pure tt
  ignoring call (some h) = handle (system (call h)) pure (λ _. pure tt)

  -- `(*Worker).Stop`
  pub stop_process : OnWorker (Unit {0})
  unfolding ignoring
  stop_process = do
    w ← (λ v. (ok v, v))
    ignoring close w.stdin
    ignoring kill w.process
    system await_readers
    update (λ v. record v { readers = 0 })

module _ (fl : Float64) where
  open fl use {F, literal}

  -- `WorkerEvent{Event: "error", Message: …}`, with the error's text and the line.
  pub error_event : Bytes → Bytes → WorkerEvent F
  error_event text line = record {
    event = codes "error";
    version = [];
    cpu_threads = pos 0;
    gpu_devices = [];
    gpu = [];
    hashes = 0;
    hashrate = literal 0 1;
    elapsed_ms = 0;
    nonce = [];
    result = [];
    message = codes "parse worker line: " ++ text ++ codes "; raw=" ++ line;
  }

  -- `parse` is `json.Unmarshal`, with the text of its error.
  module _ (parse : Bytes → WorkerEvent F ⊎ Bytes) where
    pub event_of : Bytes → WorkerEvent F
    event_of line = elim (parse line) [ inl ev ↦ ev | inr text ↦ error_event text line ]

    -- One round of `readEvents`.
    pub read_line : Bytes → Channel (WorkerEvent F) → Channel (WorkerEvent F)
    unfolding event_of
    read_line [] c = c
    read_line (b ∷ line) c = (offer (event_of (b ∷ line)) c).1

    -- `readEvents`, on the lines until the scanner ends.
    pub read_events : List Bytes → Channel (WorkerEvent F) → Channel (WorkerEvent F)
    unfolding read_line
    read_events [] c = close_events c
    read_events (line ∷ lines) c = read_events lines (read_line line c)
