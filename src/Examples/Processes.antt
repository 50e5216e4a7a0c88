-- ===== src/Examples/Processes.antt =====
-- internal/orchestrator/worker.go: a channel, the lines of a worker, and its process.

use hash256_miner.Base.{
  ℕ, false, ◌⊎◌, inl, inr, codes, take, if◌then◌else◌, ◌≡◌, refl, true, List, [], ◌∷◌, Bytes, ok,
  text_eq, zero, suc, none, some, Option,
}
use hash256_miner.Orchestrator.Events.Queue.{Runs, begin, offered, received, Ordered, Runs-Ordered}
use hash256_miner.Std.Float64.{thousandths}
use hash256_miner.Orchestrator.Protocol.{WorkerEvent}
use hash256_miner.Orchestrator.Events.{new_channel, offer, receive}
use hash256_miner.Orchestrator.Process.{read_events, Exe}
use hash256_miner.Orchestrator.Process.Lines.{Reported, read_events_lem}
use hash256_miner.Examples.World.{found_event, answer}
use hash256_miner.Orchestrator.Process.Hosted.{Fleet}

-- Two events are offered and the first is received.
two_events : Runs {A = ℕ} (1 ∷ 2 ∷ []) (1 ∷ []) (record { buffer = 2 ∷ []; closed = false })
unfolding offer receive
two_events = received (offered 2 (offered 1 begin)) refl

Runs-Ordered_example :
    Ordered {A = ℕ} (1 ∷ 2 ∷ []) (1 ∷ []) (record { buffer = 2 ∷ []; closed = false })
Runs-Ordered_example = Runs-Ordered two_events

-- Every line is the found event but the line `x`.
abbrev parse_line : Bytes → WorkerEvent ℕ ⊎ Bytes
parse_line s = if text_eq s (codes "x") then inr (codes "bad") else inl found_event

read_events_lem_example :
    (evs : List (WorkerEvent ℕ)) × Reported thousandths parse_line
      ([] ∷ codes "x" ∷ codes "{}" ∷ [])
      evs
    × (read_events thousandths parse_line ([] ∷ codes "x" ∷ codes "{}" ∷ []) new_channel
        ≡ record { buffer = take 256 evs; closed = true })
read_events_lem_example = read_events_lem thousandths parse_line ([] ∷ codes "x" ∷ codes "{}" ∷ [])

-- Every pipe and process is 4.
abbrev processes : Exe ℕ ℕ
processes = record {
  stdin_pipe = λ path. answer 4;
  stdout_pipe = λ path. answer 4;
  stderr_pipe = λ path. answer 4;
  start_process = λ path. answer 4;
  write = λ h text. answer tt;
  close = λ h. answer tt;
  kill = λ h. answer tt;
  await_readers = answer tt;
  marshal = λ cmd. ok (codes "{}");
}

abbrev to_world : Option ℕ → ℕ
to_world none = 0
to_world (some h) = suc h

abbrev of_world : ℕ → Option ℕ
of_world zero = none
of_world (suc h) = some h

-- The world is the stdin of the one worker.
abbrev one_worker : Fleet ℕ ℕ
one_worker = record {
  fresh = λ w. 1;
  fetch = λ id w. record {
    path = [];
    stdin = of_world w;
    stdout = none;
    stderr = none;
    process = none;
    readers = 0;
    world = w;
  };
  keep = λ id v w. to_world v.stdin;
}
