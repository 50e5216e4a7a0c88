-- ===== src/Orchestrator/Events/Queue.antt =====
-- internal/orchestrator/worker.go: the runs of the two sides of a worker's event channel.
use hash256_miner.Base.{
  ◌≤◌, ◌≡◌, refl, sym, arith, Bool, true, false, Option, none, some, List, [], ◌∷◌, ◌++◌,
  append_assoc, length, length-append, ltb, ltb→lt, Bool-cases, inl, inr,
}
use hash256_miner.Orchestrator.Events.{Channel, new_channel, offer, close_events, receive}

module _ {ℓ} {A : Type ℓ} where
  -- `Within xs ys`: `xs` is `ys` with some of its items left out.
  pub data Within : List A → List A → Type ℓ where
    none_left : Within [] []
    keep : {x : A} {xs ys : List A} → Within xs ys → Within (x ∷ xs) (x ∷ ys)
    skip : {x : A} {xs ys : List A} → Within xs ys → Within xs (x ∷ ys)

  Within-snoc : {xs ys : List A} (x : A) → Within xs ys → Within (xs ++ (x ∷ [])) (ys ++ (x ∷ []))
  Within-snoc x none_left = keep none_left
  Within-snoc x (keep h) = keep (Within-snoc x h)
  Within-snoc x (skip h) = skip (Within-snoc x h)

  Within-drop : {xs ys : List A} (x : A) → Within xs ys → Within xs (ys ++ (x ∷ []))
  Within-drop x none_left = skip none_left
  Within-drop x (keep h) = keep (Within-drop x h)
  Within-drop x (skip h) = skip (Within-drop x h)

  -- The steps from a channel to a channel, with the events that went out of `readEvents`' scanner and
  -- those that the consumer has received.
  pub data Runs : List A → List A → Channel A → Type ℓ where
    begin : Runs [] [] new_channel
    offered :
        {sent got : List A} {c : Channel A} (ev : A)
        → Runs sent got c
        → Runs (sent ++ (ev ∷ [])) got (offer ev c).1
    ended : {sent got : List A} {c : Channel A} → Runs sent got c → Runs sent got (close_events c)
    received :
        {sent got : List A} {c c' : Channel A} {ev : A}
        → Runs sent got c
        → receive c ≡ some (some ev, c')
        → Runs sent (got ++ (ev ∷ [])) c'
    finished :
        {sent got : List A} {c c' : Channel A}
        → Runs sent got c
        → receive c ≡ some (none, c')
        → Runs sent got c'

  pub record Ordered (sent got : List A) (c : Channel A) : Type ℓ where
    pub bounded : length c.buffer ≤ 256
    pub in_order : Within (got ++ c.buffer) sent

  offer-Ordered :
      {sent got : List A} (c : Channel A) (ev : A)
      → Ordered sent got c
      → Ordered (sent ++ (ev ∷ [])) got (offer ev c).1
  unfolding offer
  offer-Ordered {sent} {got} c ev h = elim (Bool-cases c.closed) [
    | inl a ↦ rw a (record { bounded = h.bounded; in_order = Within-drop ev h.in_order })
    | inr a ↦ rw a (elim (Bool-cases (ltb (length c.buffer) 256)) [
      | inl b ↦ rw b (record {
        bounded = omega (arith, ltb→lt (length c.buffer) 256 b, length-append c.buffer (ev ∷ []));
        in_order = rw (← append_assoc got c.buffer (ev ∷ [])) (Within-snoc ev h.in_order);
      })
      | inr b ↦ rw b (record { bounded = h.bounded; in_order = Within-drop ev h.in_order })
    ])
  ]

  some_pair :
      {x y : A} {c c' : Channel A}
      → ◌≡◌ {A = Option (Option A × Channel A)} (some (some x, c)) (some (some y, c'))
      → (x ≡ y) × (c ≡ c')
  some_pair h = (cc, cc)

  second_pair :
      {a b : Option A} {c c' : Channel A}
      → ◌≡◌ {A = Option (Option A × Channel A)} (some (a, c)) (some (b, c'))
      → c ≡ c'
  second_pair h = cc

  receive-Ordered :
      {sent got : List A} (buffer : List A) (closed : Bool) {c' : Channel A} {ev : A}
      → Ordered sent got (record { buffer = buffer; closed = closed })
      → receive (record { buffer = buffer; closed = closed }) ≡ some (some ev, c')
      → Ordered sent (got ++ (ev ∷ [])) c'
  unfolding receive
  receive-Ordered [] true h e = cc
  receive-Ordered [] false h e = cc
  receive-Ordered {sent} {got} (x ∷ rest) closed {c'} {ev} h e =
      let (same, same_c) = some_pair e in
      rw (← same) (
        rw (← same_c) (record {
          bounded = omega (arith, h.bounded);
          in_order = rw (append_assoc got (x ∷ []) rest) h.in_order;
        }))

  receive_none :
      (buffer : List A) (closed : Bool) {c' : Channel A}
      → receive (record { buffer = buffer; closed = closed }) ≡ some (none, c')
      → (c' ≡ record { buffer = buffer; closed = closed }) × (buffer ≡ [])
  unfolding receive
  receive_none [] true e = (sym (second_pair e), refl)
  receive_none [] false e = cc
  receive_none (x ∷ rest) closed e = cc

  -- However the two sides interleave, at most 256 events wait in the channel, and what the consumer
  -- has received followed by what waits is the worker's events in their order, with some left out.
  pub Runs-Ordered : {sent got : List A} {c : Channel A} → Runs sent got c → Ordered sent got c
  unfolding close_events
  Runs-Ordered begin = record { bounded = omega arith; in_order = none_left }
  Runs-Ordered (offered {c} ev h) = offer-Ordered c ev (Runs-Ordered h)
  Runs-Ordered (ended h) = record {
    bounded = (Runs-Ordered h).bounded;
    in_order = (Runs-Ordered h).in_order;
  }
  Runs-Ordered (received {c} h e) = receive-Ordered c.buffer c.closed (Runs-Ordered h) e
  Runs-Ordered (finished {c} h e) = rw (receive_none c.buffer c.closed e).0 (Runs-Ordered h)
