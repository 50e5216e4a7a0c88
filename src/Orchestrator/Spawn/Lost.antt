-- ===== src/Orchestrator/Spawn/Lost.antt =====
-- internal/orchestrator/engine.go: the `ready` event in the hands of the goroutine.
use hash256_miner.Base.{
  ◌≡◌, ◌≢◌, ◌⊎◌, inl, inr, refl, sym, ◌∙◌, true, false, Bool-cases, Option, none, some, [], ◌∷◌,
}
use hash256_miner.Orchestrator.Protocol.{WorkerEvent}
use hash256_miner.Orchestrator.Events.{Channel, offer, close_events, receive}
use hash256_miner.Orchestrator.Spawn.{
  waiting, started, first_event, is_ready_event, Spawn, spawned, Step, announce, report, ended,
  handled_one, received_first, Steps, here, then_step,
}

module _ {F : Type 0} where
  -- Before the job is sent the worker has written nothing, its `ready` waits and nothing was handled,
  -- or the `ready` is gone.
  pub data Stage (s : Spawn F) : Type 0 where
    running : s.phase ≡ started → Stage s
    silent :
        s.phase ≢ started → s.announced ≡ false → s.channel.buffer ≡ [] → s.handled ≡ [] → Stage s
    pending :
        (ev : WorkerEvent F)
        → is_ready_event ev ≡ true
        → s.phase ≢ started
        → s.announced ≡ true
        → s.channel.buffer ≡ ev ∷ []
        → s.handled ≡ []
        → Stage s
    gone : s.phase ≢ started → s.announced ≡ true → s.channel.buffer ≡ [] → Stage s

  -- The `ready` is gone and the job was not sent.
  pub record IsLost (s : Spawn F) : Type 0 where
    pub unsent : s.phase ≢ started
    pub written : s.announced ≡ true
    pub empty : s.channel.buffer ≡ []

  pub receive_empty :
      (c : Channel (WorkerEvent F)) {o : Option (WorkerEvent F)} {c' : Channel (WorkerEvent F)}
      → c.buffer ≡ []
      → receive c ≡ some (o, c')
      → (o ≡ none) × (c'.buffer ≡ [])
  unfolding receive
  receive_empty c e h = elim (Bool-cases c.closed) [
    | inl over ↦ let h' = rw (e, over) at h in (cc, cc)
    | inr open_yet ↦ let h' = rw (e, open_yet) at h in cc
  ]

  receive_last :
      (c : Channel (WorkerEvent F)) {ev : WorkerEvent F} {o : Option (WorkerEvent F)}
      {c' : Channel (WorkerEvent F)}
      → c.buffer ≡ ev ∷ []
      → receive c ≡ some (o, c')
      → (o ≡ some ev) × (c'.buffer ≡ [])
  unfolding receive
  receive_last c e h = let h' = rw e at h in (cc, cc)

  offer_first :
      (ev : WorkerEvent F) (c : Channel (WorkerEvent F))
      → c.buffer ≡ []
      → ((offer ev c).1.buffer ≡ []) ⊎ ((offer ev c).1.buffer ≡ ev ∷ [])
  unfolding offer
  offer_first ev c e = elim (Bool-cases c.closed) [
    | inl over ↦ rw over (inl e)
    | inr open_yet ↦ rw (open_yet, e) (inr refl)
  ]

  IsLost-Step : {s t : Spawn F} → Step F s t → IsLost s → IsLost t
  unfolding close_events first_event
  IsLost-Step {s} (announce ev r fresh) h = let clash = sym h.written ∙ fresh in cc
  IsLost-Step {s} (report ev sent) h = absurd (h.unsent sent)
  IsLost-Step {s} ended h = record { unsent = h.unsent; written = h.written; empty = h.empty }
  IsLost-Step {s} (handled_one e) h = let (nothing, _) = receive_empty s.channel h.empty e in cc
  IsLost-Step {s} (received_first w e) h =
      let (nothing, left) = receive_empty s.channel h.empty e in
      record { unsent = rw nothing (λ q. cc); written = h.written; empty = left }

  IsLost-Steps : {s t : Spawn F} → Steps F s t → IsLost s → IsLost t
  IsLost-Steps here h = h
  IsLost-Steps (then_step run step) h = IsLost-Step step (IsLost-Steps run h)

  running-Step : {s t : Spawn F} → Step F s t → s.phase ≡ started → Stage t
  running-Step (announce ev r fresh) p = running p
  running-Step (report ev q) p = running p
  running-Step ended p = running p
  running-Step (handled_one e) p = running p
  running-Step (received_first w e) p = let clash = sym w ∙ p in cc

  silent-Step :
      {s t : Spawn F}
      → Step F s t
      → s.phase ≢ started
      → s.announced ≡ false
      → s.channel.buffer ≡ []
      → s.handled ≡ []
      → Stage t
  unfolding close_events first_event
  silent-Step {s} (announce ev r fresh) u a e n = elim (offer_first ev s.channel e) [
    | inl dropped ↦ gone u refl dropped
    | inr put ↦ pending ev r u refl put n
  ]
  silent-Step (report ev p) u a e n = absurd (u p)
  silent-Step ended u a e n = silent u a e n
  silent-Step {s} (handled_one h) u a e n = let (nothing, _) = receive_empty s.channel e h in cc
  silent-Step {s} (received_first w h) u a e n =
      let (nothing, left) = receive_empty s.channel e h in silent (rw nothing (λ q. cc)) a left n

  pending-Step :
      {s t : Spawn F} (waits : WorkerEvent F)
      → is_ready_event waits ≡ true
      → Step F s t
      → s.phase ≢ started
      → s.announced ≡ true
      → s.channel.buffer ≡ waits ∷ []
      → s.handled ≡ []
      → Stage t
  unfolding close_events first_event
  pending-Step waits is (announce ev r fresh) u a e n = let clash = sym a ∙ fresh in cc
  pending-Step waits is (report ev p) u a e n = absurd (u p)
  pending-Step waits is ended u a e n = pending waits is u a e n
  pending-Step {s} waits is (handled_one h) u a e n =
      let (_, left) = receive_last s.channel e h in gone u a left
  pending-Step {s} waits is (received_first w h) u a e n =
      let (same, left) = receive_last s.channel e h in rw same (running (rw is refl))

  Stage-Step : {s t : Spawn F} → Step F s t → Stage s → Stage t
  unfolding close_events first_event
  Stage-Step step (running r) = running-Step step r
  Stage-Step {s} step (gone u w e) =
      let lost = IsLost-Step step (record { unsent = u; written = w; empty = e }) in
      gone lost.unsent lost.written lost.empty
  Stage-Step {s} step (silent u a e n) = silent-Step step u a e n
  Stage-Step {s} step (pending ev is u a e n) = pending-Step ev is step u a e n

  pub reached : {s : Spawn F} → Steps F (spawned F) s → Stage s
  reached here = silent (λ q. cc) refl refl refl
  reached (then_step run step) = Stage-Step step (reached run)

  -- When the goroutine of `handleWorkerEvents` receives an event of a new worker while
  -- `spawnWorkers` still waits for `ready`, then in every state that can follow no job has been
  -- sent to the worker and no event waits in its channel. The worker must write `ready` first and
  -- nothing else before a job.
  pub spawned-IsLost :
      {s t : Spawn F}
      → Steps F (spawned F) s
      → s.phase ≡ waiting
      → s.handled ≢ []
      → Steps F s t
      → IsLost t
  spawned-IsLost {s} run w taken more = IsLost-Steps more (elim (reached run) [
    | running r ↦ let clash = sym w ∙ r in cc
    | silent _ _ _ none_handled ↦ absurd (taken none_handled)
    | pending _ _ _ _ _ none_handled ↦ absurd (taken none_handled)
    | gone unsent written empty ↦ record { unsent = unsent; written = written; empty = empty }
  ])
