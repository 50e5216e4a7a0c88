-- ===== src/Orchestrator/Process/Lines.antt =====
-- internal/orchestrator/worker.go: what `readEvents` leaves in a channel that nobody reads.
use hash256_miner.Base.{
  ℕ, zero, suc, ◌≡◌, ◌≤◌, ◌<◌, refl, ap, ◌∙◌, arith, true, false, List, [], ◌∷◌, ◌++◌, Bytes, codes,
  pos, ◌⊎◌, inl, inr, length, take, ltb, ltb→lt, lt→ltb, Bool-cases, append_assoc, append-nil,
  length-append, take_of_length-le,
}
use hash256_miner.Std.Float64.{Float64}
use hash256_miner.Orchestrator.Protocol.{WorkerEvent}
use hash256_miner.Orchestrator.Events.{new_channel, offer, close_events}
use hash256_miner.Orchestrator.Process.{error_event, event_of, read_line, read_events}

take-append-full {ℓ} :
    {A : Type ℓ} (n : ℕ) (xs ys zs : List A) → n ≤ length xs → take n (xs ++ ys) ≡ take n (xs ++ zs)
take-append-full zero xs ys zs h = refl
take-append-full (suc n) [] ys zs h = absurd (omega arith)
take-append-full (suc n) (x ∷ xs) ys zs h =
    ap (λ l. x ∷ l) (take-append-full n xs ys zs (omega arith))

module _ {A : Type 0} (ev : A) (buffer : List A) where
  offer_room :
      length buffer < 256
      → (offer ev (record { buffer = buffer; closed = false })).1
        ≡ record { buffer = buffer ++ (ev ∷ []); closed = false }
  unfolding offer
  offer_room h = rw (lt→ltb (length buffer) 256 h) refl

  offer_full :
      256 ≤ length buffer
      → (offer ev (record { buffer = buffer; closed = false })).1
        ≡ record { buffer = buffer; closed = false }
  unfolding offer
  offer_full h = ground arith

module _ (fl : Float64) (parse : Bytes → WorkerEvent fl.F ⊎ Bytes) where
  open fl use {F, literal}

  -- What a line that is not empty reports: what it parses to, or an event of the kind `error` whose
  -- message has the error's text and the line, all else zero.
  pub data Reports (line : Bytes) : WorkerEvent F → Type 0 where
    parsed : {ev : WorkerEvent F} → parse line ≡ inl ev → Reports line ev
    unparsed :
        {text : Bytes}
        → parse line ≡ inr text
        → Reports line (record {
          event = codes "error";
          version = [];
          cpu_threads = pos 0;
          gpu_devices = [];
          gpu = [];
          hashes = 0;
          hashrate = literal 0 1;
          elapsed_ms = 0;
          nonce = [];
          result = [];
          message = codes "parse worker line: " ++ text ++ codes "; raw=" ++ line;
        })

  -- The events that the lines report, in their order.
  pub data Reported : List Bytes → List (WorkerEvent F) → Type 0 where
    no_lines : Reported [] []
    empty_line :
        {lines : List Bytes} {evs : List (WorkerEvent F)}
        → Reported lines evs
        → Reported ([] ∷ lines) evs
    one_event :
        {b : ℕ} {line : Bytes} {lines : List Bytes} {ev : WorkerEvent F}
        {evs : List (WorkerEvent F)}
        → Reports (b ∷ line) ev
        → Reported lines evs
        → Reported ((b ∷ line) ∷ lines) (ev ∷ evs)

  event_of-Reports : (line : Bytes) → Reports line (event_of fl parse line)
  unfolding event_of error_event
  event_of-Reports line = report (parse line) refl
    where
      report :
          (r : WorkerEvent F ⊎ Bytes)
          → parse line ≡ r
          → Reports line (elim r [ inl ev ↦ ev | inr text ↦ error_event fl text line ])
      report (inl ev) e = parsed e
      report (inr text) e = unparsed e

  -- The events of the lines that are not empty.
  events_of : List Bytes → List (WorkerEvent F)
  events_of [] = []
  events_of ([] ∷ lines) = events_of lines
  events_of ((b ∷ line) ∷ lines) = event_of fl parse (b ∷ line) ∷ events_of lines

  events_of-Reported : (lines : List Bytes) → Reported lines (events_of lines)
  unfolding events_of
  events_of-Reported [] = no_lines
  events_of-Reported ([] ∷ lines) = empty_line (events_of-Reported lines)
  events_of-Reported ((b ∷ line) ∷ lines) =
      one_event (event_of-Reports (b ∷ line)) (events_of-Reported lines)

  read_events-from :
      (lines : List Bytes) (buffer : List (WorkerEvent F))
      → length buffer ≤ 256
      → read_events fl parse lines (record { buffer = buffer; closed = false })
        ≡ record { buffer = take 256 (buffer ++ events_of lines); closed = true }
  unfolding read_events read_line close_events events_of
  read_events-from [] buffer h = rw (append-nil buffer, take_of_length-le 256 buffer h) refl
  read_events-from ([] ∷ lines) buffer h = read_events-from lines buffer h
  read_events-from ((b ∷ line) ∷ lines) buffer h =
      let ev = event_of fl parse (b ∷ line) in
      let evs = events_of lines in
      elim (Bool-cases (ltb (length buffer) 256)) [
        | inl room ↦
            ap (read_events fl parse lines) (offer_room ev buffer (ltb→lt (length buffer) 256 room))
            ∙ read_events-from lines (buffer ++ (ev ∷ []))
                (omega (arith, length-append {0} buffer (ev ∷ []), ltb→lt (length buffer) 256 room))
            ∙ ap (λ l. record { buffer = take 256 l; closed = true })
                (append_assoc buffer (ev ∷ []) evs)
        | inr full ↦
            let many : 256 ≤ length buffer = ground arith in
            ap (read_events fl parse lines) (offer_full ev buffer many)
            ∙ read_events-from lines buffer h
            ∙ ap (λ l. record { buffer = l; closed = true })
                (take-append-full 256 buffer evs (ev ∷ evs) many)
      ]

  -- On a new channel that nobody reads, `readEvents` leaves the first 256 events of the worker's
  -- lines that are not empty, in their order, and closes the channel. The event of a line is what
  -- it parses to, or an event of the kind `error` with the error's text and the line.
  pub read_events_lem :
      (lines : List Bytes)
      → (evs : List (WorkerEvent F)) × Reported lines evs
        × (read_events fl parse lines new_channel ≡ record { buffer = take 256 evs; closed = true })
  read_events_lem lines =
      (events_of lines, events_of-Reported lines, read_events-from lines [] (omega arith))
