-- ===== src/Orchestrator/Events.antt =====
-- internal/orchestrator/worker.go: the channel between `readEvents` and its consumer, as the sequence
-- of the steps that the lock and the channel make atomic.
pub mod Queue
use hash256_miner.Base.{
  ℕ, suc, Bool, true, false, Option, none, some, List, [], ◌∷◌, ◌++◌, Bytes, length, ltb,
  if◌then◌else◌,
}

-- `w.events`, made with room for 256 events, and `w.closed`.
pub record Channel {ℓ} (A : Type ℓ) : Type ℓ where
  pub buffer : List A
  pub closed : Bool

abbrev pub capacity : ℕ
capacity = 256

module _ {ℓ} {A : Type ℓ} where
  abbrev pub new_channel : Channel A
  new_channel = record { buffer = []; closed = false }

  -- `select { case w.events <- ev: default: }` under `if !w.closed`; true where the event went in.
  unfoldable pub offer : A → Channel A → Bool × Channel A
  offer ev c =
      if c.closed
      then (false, c)
      else if ltb (length c.buffer) capacity
      then (true, record c { buffer = c.buffer ++ (ev ∷ []) })
      else (false, c)

  -- The end of `readEvents`.
  unfoldable pub close_events : Channel A → Channel A
  close_events c = record c { closed = true }

  -- `<-w.Events()`: an event, the end of a closed channel, or no step as long as it blocks.
  unfoldable pub receive : Channel A → Option (Option A × Channel A)
  receive c = elim c.buffer [
    | [] ↦ if c.closed then some (none, c) else none
    | ev ∷ rest ↦ some (some ev, record c { buffer = rest })
  ]
