-- ===== src/Orchestrator/Spawn.antt =====
-- internal/orchestrator/engine.go: the start of one worker in `spawnWorkers`, where the goroutine of
-- `handleWorkerEvents` and `spawnWorkers` itself receive from the same channel. The scheduler chooses the
-- steps. The worker process writes `ready` once, and anything else only after a command.
pub mod Lost
pub mod Live
use hash256_miner.Base.{
  ℕ, ◌≡◌, Bool, true, false, Option, none, some, List, [], ◌∷◌, ◌++◌, codes, text_eq, if◌then◌else◌,
}
use hash256_miner.Orchestrator.Protocol.{WorkerEvent}
use hash256_miner.Orchestrator.Events.{Channel, new_channel, offer, close_events, receive}

-- `spawnWorkers` waits for the first event, has sent the job, or has returned its error.
pub data Phase : Type 0 where
  waiting started refused : Phase

module _ {F : Type 0} where
  unfoldable pub is_ready_event : WorkerEvent F → Bool
  is_ready_event ev = text_eq ev.event (codes "ready")

  -- `ready := <-w.Events()` and its test; a closed channel gives the zero event.
  pub first_event : Option (WorkerEvent F) → Phase
  unfolding is_ready_event
  first_event none = refused
  first_event (some ev) = if is_ready_event ev then started else refused

module _ (F : Type 0) where
  -- `announced` says that the worker has written `ready`, `handled` is what the goroutine has received.
  pub record Spawn : Type 0 where
    pub channel : Channel (WorkerEvent F)
    pub announced : Bool
    pub handled : List (WorkerEvent F)
    pub phase : Phase

  abbrev pub spawned : Spawn
  spawned = record { channel = new_channel; announced = false; handled = []; phase = waiting }

  pub data Step (s : Spawn) : Spawn → Type 0 where
    announce :
        (ev : WorkerEvent F)
        → is_ready_event ev ≡ true
        → s.announced ≡ false
        → Step s (record s { announced = true; channel = (offer ev s.channel).1 })
    report :
        (ev : WorkerEvent F)
        → s.phase ≡ started
        → Step s (record s { channel = (offer ev s.channel).1 })
    ended : Step s (record s { channel = close_events s.channel })
    handled_one :
        {ev : WorkerEvent F} {c : Channel (WorkerEvent F)}
        → receive s.channel ≡ some (some ev, c)
        → Step s (record s { channel = c; handled = s.handled ++ (ev ∷ []) })
    received_first :
        {first : Option (WorkerEvent F)} {c : Channel (WorkerEvent F)}
        → s.phase ≡ waiting
        → receive s.channel ≡ some (first, c)
        → Step s (record s { channel = c; phase = first_event first })

  pub data Steps (s : Spawn) : Spawn → Type 0 where
    here : Steps s s
    then_step : {t u : Spawn} → Steps s t → Step t u → Steps s u
