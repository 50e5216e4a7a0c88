-- ===== src/Examples/Goroutines.antt =====
-- internal/orchestrator: the loops and the goroutines around one account and one worker.
use mathlib.Core.List.Perm
use hash256_miner.Base.{
  ℕ, false, ◌↔◌, ◌+◌, ◌≤◌, ◌⊎◌, codes, String, panic, ◌≡◌, refl, true, false, [], ◌∷◌, Bytes,
  replicate, Result, ok, trim_0x, text_eq, to_lower,
}
use hash256_miner.Std.Hex.{hex_decode, from_hex}
use hash256_miner.Std.BigInt.{set_bytes}
use hash256_miner.Std.Slice.{copy_at}
use hash256_miner.Orchestrator.Engine.{is_submitted, get_difficulty}
use hash256_miner.Orchestrator.Found.{
  verify_local, verify_with, proof_bytes, accept_nonce, claim_found,
}
use hash256_miner.Orchestrator.Found.Once.{key_of}
use hash256_miner.Orchestrator.Found.Crew.{
  front, Crew, claim_new, broadcast_one, Reached, idle_crew, crew_step, occurrences,
}
use hash256_miner.Orchestrator.Found.Crew.Once.{mark, crew_claims_bound}
use hash256_miner.Orchestrator.Loop.{handle_worker_events}
use hash256_miner.Orchestrator.Protocol.{WorkerEvent}
use hash256_miner.Orchestrator.Events.{new_channel, offer, receive, close_events}
use hash256_miner.Orchestrator.Loop.Ledger.{members, ledger, handle_worker_events-ledger}
use hash256_miner.Orchestrator.Loop.Ledger.Order.{handle_worker_events-order}
use hash256_miner.Orchestrator.Spawn.Live.{CanStart, HasReady, CanStart-HasReady}
use hash256_miner.Orchestrator.Run.{stats, polling, run}
use hash256_miner.Orchestrator.Run.Ends.{Ended, run-Ended}
use hash256_miner.Orchestrator.Spawn.{
  waiting, is_ready_event, Spawn, spawned, announce, ended, handled_one, Steps, here, then_step,
}
use hash256_miner.Orchestrator.Spawn.Lost.{IsLost, spawned-IsLost}
use hash256_miner.Examples.World.{machine, idle, a_miner, found_event}

abbrev packs : Result Bytes
packs = ok (1 ∷ 2 ∷ [])

abbrev zeros : Bytes
zeros = replicate 32 0

run-Ended_example :
    Ended
      (machine packs)
      0
      (a_miner ∷ [])
      (stats ∷ polling ∷ [])
      (idle packs)
      (run (machine packs) 0 (a_miner ∷ []) (stats ∷ polling ∷ []) (idle packs))
run-Ended_example = run-Ended (machine packs) 0 (a_miner ∷ []) (stats ∷ polling ∷ []) (idle packs)

handle_worker_events-ledger_example :
    ((m : String) × ((handle_worker_events
          (machine packs)
          0
          a_miner
          1
          (found_event ∷ [])
          (idle packs)).0
        ≡ panic m))
    ⊎ (((handle_worker_events (machine packs) 0 a_miner 1 (found_event ∷ []) (idle packs)).0
          ≡ ok tt)
        × (members
              (handle_worker_events
                (machine packs)
                0
                a_miner
                1
                (found_event ∷ [])
                (idle packs)).1.engine.submitted
            ≡ ledger (machine packs) (idle packs).engine a_miner (found_event ∷ []) (members [])))
handle_worker_events-ledger_example =
    handle_worker_events-ledger (machine packs) 0 a_miner 1 (found_event ∷ []) (idle packs)

abbrev ready_event : WorkerEvent ℕ
ready_event = record found_event { event = codes "ready" }

-- The goroutine has taken the `ready` event, and `spawnWorkers` waits.
abbrev taken : Spawn ℕ
taken = record {
  channel = new_channel;
  announced = true;
  handled = ready_event ∷ [];
  phase = waiting;
}

to_taken : Steps ℕ (spawned ℕ) taken
unfolding offer receive is_ready_event text_eq
to_taken = then_step (then_step here (announce ready_event refl refl)) (handled_one refl)

spawned-IsLost_example : IsLost (record taken { channel = record { buffer = []; closed = true } })
unfolding close_events
spawned-IsLost_example = spawned-IsLost to_taken refl (λ h. cc) (then_step here ended)

-- A goroutine has claimed the found nonce, and broadcasts for it.
abbrev claiming : Crew (machine packs)
claiming = record {
  sys = (claim_found (machine packs) a_miner found_event (idle packs)).1;
  claimed = key_of (machine packs) a_miner found_event ∷ [];
  sent = [];
}

abbrev sending : Crew (machine packs)
sending = record claiming { claimed = []; sent = key_of (machine packs) a_miner found_event ∷ [] }

to_claiming : Reached (machine packs) (idle packs) claiming
unfolding claim_found accept_nonce trim_0x hex_decode from_hex verify_with verify_local proof_bytes
    copy_at set_bytes get_difficulty is_submitted text_eq to_lower
to_claiming = crew_step idle_crew (claim_new a_miner found_event {nonce = zeros} refl)

crew_claims_bound_example :
    occurrences (codes "0xa5:") sending.claimed + occurrences (codes "0xa5:") sending.sent
    ≤ mark (is_submitted (codes "0xa5:") sending.sys.engine.submitted)
crew_claims_bound_example =
    crew_claims_bound (machine packs) (codes "0xa5:") (crew_step to_claiming (broadcast_one front))

-- The worker has written `ready` and both wait for it.
abbrev announced : Spawn ℕ
announced = record {
  channel = record { buffer = ready_event ∷ []; closed = false };
  announced = true;
  handled = [];
  phase = waiting;
}

to_announced : Steps ℕ (spawned ℕ) announced
unfolding offer is_ready_event text_eq
to_announced = then_step here (announce ready_event refl refl)

CanStart-HasReady_example : CanStart announced ↔ HasReady announced
unfolding is_ready_event text_eq
CanStart-HasReady_example = CanStart-HasReady ready_event refl to_announced refl

-- A found event and a progress event.
abbrev a_progress : WorkerEvent ℕ
a_progress = record found_event { event = codes "progress" }

handle_worker_events-order_example :
    ((m : String) × (((handle_worker_events
            (machine packs)
            0
            a_miner
            1
            (found_event ∷ a_progress ∷ [])
            (idle packs)).0
          ≡ panic m)
        ⊎ ((handle_worker_events
              (machine packs)
              0
              a_miner
              1
              (a_progress ∷ found_event ∷ [])
              (idle packs)).0
            ≡ panic m)))
    ⊎ (((handle_worker_events
            (machine packs)
            0
            a_miner
            1
            (found_event ∷ a_progress ∷ [])
            (idle packs)).0
          ≡ ok tt)
        × ((handle_worker_events
              (machine packs)
              0
              a_miner
              1
              (a_progress ∷ found_event ∷ [])
              (idle packs)).0
            ≡ ok tt)
        × (members
              (handle_worker_events
                (machine packs)
                0
                a_miner
                1
                (found_event ∷ a_progress ∷ [])
                (idle packs)).1.engine.submitted
            ≡ members
                (handle_worker_events
                  (machine packs)
                  0
                  a_miner
                  1
                  (a_progress ∷ found_event ∷ [])
                  (idle packs)).1.engine.submitted))
handle_worker_events-order_example =
    handle_worker_events-order (machine packs) 0 a_miner 1 (idle packs)
      (Perm.swap a_progress found_event [])
