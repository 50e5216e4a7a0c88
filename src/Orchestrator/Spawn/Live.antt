-- ===== src/Orchestrator/Spawn/Live.antt =====
-- internal/orchestrator/engine.go: the states of a new worker in which its job can still be sent.
use hash256_miner.Base.{
  ◌≡◌, ◌≢◌, ◌⊎◌, ◌↔◌, inl, inr, refl, sym, ◌∙◌, true, false, Bool-cases, Option, some, [], ◌∷◌,
}
use hash256_miner.Orchestrator.Protocol.{WorkerEvent}
use hash256_miner.Orchestrator.Events.{Channel, offer, close_events, receive}
use hash256_miner.Orchestrator.Spawn.{
  waiting, started, first_event, is_ready_event, Spawn, spawned, Step, announce, report, ended,
  handled_one, received_first, Steps, here, then_step,
}
use hash256_miner.Orchestrator.Spawn.Lost.{
  Stage, running, silent, pending, gone, receive_empty, reached,
}

module _ {F : Type 0} where
  -- Some steps lead to a state in which the job was sent.
  pub record CanStart (s : Spawn F) : Type 0 where
    pub later : Spawn F
    pub steps : Steps F s later
    pub sent : later.phase ≡ started

  -- The `ready` event waits in the channel, or the worker has not written it and its output is open.
  pub data HasReady (s : Spawn F) : Type 0 where
    waits_ready : s.channel.buffer ≢ [] → HasReady s
    to_write : s.announced ≡ false → s.channel.closed ≡ false → HasReady s

  -- No event waits and none will.
  record IsDry (s : Spawn F) : Type 0 where
    pub unsent : s.phase ≢ started
    pub empty : s.channel.buffer ≡ []
    pub over : (s.announced ≡ true) ⊎ (s.channel.closed ≡ true)

  receive_same :
      (c : Channel (WorkerEvent F)) {o : Option (WorkerEvent F)} {c' : Channel (WorkerEvent F)}
      → c.buffer ≡ []
      → receive c ≡ some (o, c')
      → c' ≡ c
  unfolding receive
  receive_same c e h = elim (Bool-cases c.closed) [
    | inl over ↦ let h' = rw (e, over) at h in cc
    | inr open_yet ↦ let h' = rw (e, open_yet) at h in cc
  ]

  IsDry-Step : {s t : Spawn F} → Step F s t → IsDry s → IsDry t
  unfolding close_events first_event offer
  IsDry-Step {s} (announce ev r fresh) h = elim h.over [
    | inl a ↦ let clash = sym a ∙ fresh in cc
    | inr c ↦ record { unsent = h.unsent; empty = rw c h.empty; over = inl refl }
  ]
  IsDry-Step {s} (report ev sent) h = absurd (h.unsent sent)
  IsDry-Step {s} ended h = record { unsent = h.unsent; empty = h.empty; over = inr refl }
  IsDry-Step {s} (handled_one e) h = let (nothing, _) = receive_empty s.channel h.empty e in cc
  IsDry-Step {s} (received_first w e) h =
      let (nothing, _) = receive_empty s.channel h.empty e in
      let same = receive_same s.channel h.empty e in
      record { unsent = rw nothing (λ q. cc); empty = rw same h.empty; over = rw same h.over }

  IsDry-Steps : {s t : Spawn F} → Steps F s t → IsDry s → IsDry t
  IsDry-Steps here h = h
  IsDry-Steps (then_step run step) h = IsDry-Step step (IsDry-Steps run h)

  dry_never : {s : Spawn F} → IsDry s → ¬ CanStart s
  dry_never h c = (IsDry-Steps c.steps h).unsent c.sent

  -- The next receive of `spawnWorkers` takes the `ready` event that waits.
  take_ready :
      {s : Spawn F} (ev : WorkerEvent F)
      → s.phase ≡ waiting
      → is_ready_event ev ≡ true
      → s.channel.buffer ≡ ev ∷ []
      → CanStart s
  unfolding first_event receive
  take_ready {s} ev w is e = record {
    later = record s { channel = record s.channel { buffer = [] }; phase = first_event (some ev) };
    steps = then_step here (received_first {first = some ev} w (rw e refl));
    sent = rw is refl;
  }

  prepend : {s t u : Spawn F} → Step F s t → Steps F t u → Steps F s u
  prepend step here = then_step here step
  prepend step (then_step run last) = then_step (prepend step run) last

  -- The worker writes `ready`, and `spawnWorkers` takes it.
  write_ready :
      {s : Spawn F} (ev : WorkerEvent F)
      → s.phase ≡ waiting
      → is_ready_event ev ≡ true
      → s.announced ≡ false
      → s.channel.closed ≡ false
      → s.channel.buffer ≡ []
      → CanStart s
  unfolding offer
  write_ready {s} ev w is fresh open_yet e =
      let t : Spawn F = record s { announced = true; channel = (offer ev s.channel).1 } in
      let start : CanStart t = take_ready ev w is (rw (open_yet, e) refl) in
      record {
        later = start.later;
        steps = prepend (announce ev is fresh) start.steps;
        sent = start.sent;
      }

  can-HasReady : {s : Spawn F} → Stage s → s.phase ≡ waiting → CanStart s → HasReady s
  can-HasReady (running p) w c = let clash = sym w ∙ p in cc
  can-HasReady {s} (silent u a e n) w c = elim (Bool-cases s.channel.closed) [
    | inl over ↦ absurd (dry_never (record { unsent = u; empty = e; over = inr over }) c)
    | inr open_yet ↦ to_write a open_yet
  ]
  can-HasReady (pending ev is u a e n) w c =
      waits_ready (λ none_left. let clash = sym e ∙ none_left in cc)
  can-HasReady (gone u a e) w c =
      absurd (dry_never (record { unsent = u; empty = e; over = inl a }) c)

  HasReady-can :
      {s : Spawn F} (ev : WorkerEvent F)
      → is_ready_event ev ≡ true
      → Stage s
      → s.phase ≡ waiting
      → HasReady s
      → CanStart s
  HasReady-can ev is (running p) w h = let clash = sym w ∙ p in cc
  HasReady-can ev is (silent u a e n) w (waits_ready some_left) = absurd (some_left e)
  HasReady-can ev is (silent u a e n) w (to_write fresh open_yet) =
      write_ready ev w is fresh open_yet e
  HasReady-can ev is (pending first first_is u a e n) w h = take_ready first w first_is e
  HasReady-can ev is (gone u a e) w (waits_ready some_left) = absurd (some_left e)
  HasReady-can ev is (gone u a e) w (to_write fresh open_yet) = let clash = sym a ∙ fresh in cc

  -- While `spawnWorkers` waits for a new worker, the job can still be sent just when the `ready`
  -- event waits in the channel, or has not been written and the worker's output is open. Some event
  -- must be a `ready`.
  pub CanStart-HasReady :
      {s : Spawn F} (ev : WorkerEvent F)
      → is_ready_event ev ≡ true
      → Steps F (spawned F) s
      → s.phase ≡ waiting
      → CanStart s ↔ HasReady s
  CanStart-HasReady ev is run w = (can-HasReady (reached run) w, HasReady-can ev is (reached run) w)
