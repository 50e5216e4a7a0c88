-- ===== src/Cli/Signals.antt =====
-- internal/cli/mine.go: `signalContext`, its channel of one signal and its goroutine. The scheduler chooses
-- the steps.
pub mod Heard
use hash256_miner.Base.{◌≡◌, Bool, true, false}

-- `arrived`, `parent_done` and `called` are the causes for which the context can end: a signal of the
-- process, the end of the parent, and a call of `cancel` by the caller.
pub record Signals : Type 0 where
  pub queued : Bool  -- a signal waits in `sig`
  pub listening : Bool  -- the goroutine is in its `select`
  pub cancelled : Bool  -- `cancel` was called, by the goroutine or by the caller
  pub arrived : Bool
  pub parent_done : Bool
  pub called : Bool

-- `context.WithCancel(parent)`, `make(chan os.Signal, 1)` and the start of the goroutine.
abbrev pub new_signals : Signals
new_signals = record {
  queued = false;
  listening = true;
  cancelled = false;
  arrived = false;
  parent_done = false;
  called = false;
}

-- A context of `WithCancel` is done when its parent is, or when it is cancelled.
pub data IsDone (s : Signals) : Type 0 where
  by_parent : s.parent_done ≡ true → IsDone s
  by_cancel : s.cancelled ≡ true → IsDone s

-- `os/signal` does not wait for room in the channel: a signal that finds one waiting is dropped.
pub data SignalStep (s : Signals) : Signals → Type 0 where
  signal_arrives : SignalStep s (record s { queued = true; arrived = true })
  parent_ends : SignalStep s (record s { parent_done = true })
  caller_cancels : SignalStep s (record s { cancelled = true; called = true })
  takes_signal :
      s.listening ≡ true
      → s.queued ≡ true
      → SignalStep s (record s { queued = false; listening = false; cancelled = true })
  sees_done : s.listening ≡ true → IsDone s → SignalStep s (record s { listening = false })

pub data SignalSteps : Signals → Type 0 where
  begun : SignalSteps new_signals
  and_step : {s t : Signals} → SignalSteps s → SignalStep s t → SignalSteps t
