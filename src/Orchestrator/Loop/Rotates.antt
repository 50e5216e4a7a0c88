-- ===== src/Orchestrator/Loop/Rotates.antt =====
-- internal/orchestrator/engine.go: what a poll of `Run` sends to the workers.
use hash256_miner.Base.{
  ℕ, ◌≡◌, ◌≢◌, ◌↔◌, refl, arith, some, none, sym, ◌∙◌, ap, inl, inr, true, false, Bool-cases,
  Option, List, [], ◌++◌, append-nil, String, Err, Result, ok, err, panic, resume_rule, resume,
  pure, fail,
}
use hash256_miner.Orchestrator.Codec.{difficulty_to_hex32}
use hash256_miner.Orchestrator.Engine.{Env, Engine, Sys, current_epoch, get_difficulty, poll_state}
use hash256_miner.Orchestrator.Engine.Poll.{poll_state-Polled}
use hash256_miner.Orchestrator.Engine.Seen.{Sent, SeesCommands}
use hash256_miner.Orchestrator.Engine.Unseen.{poll_state-unseen}
use hash256_miner.Orchestrator.Engine.Retargets.{
  Retargets, Sends, panicked, returned, retarget_all-Sends,
}
use hash256_miner.Orchestrator.Loop.{is_rotated, poll_tick}

-- Two epochs that are known and differ.
pub data Rotated : Option ℕ → Option ℕ → Type 0 where
  rotated : {now last : ℕ} → now ≢ last → Rotated (some now) (some last)

is_rotated_iff : (now last : Option ℕ) → (is_rotated now last ≡ true) ↔ Rotated now last
unfolding is_rotated
is_rotated_iff none last = (λ h. cc, λ r. elim r [ ])
is_rotated_iff (some now) none = (λ h. cc, λ r. elim r [ ])
is_rotated_iff (some now) (some last) =
    (λ h. rotated (λ same. ground arith), λ r. elim r [ rotated differ ↦ ground arith ])

not-Rotated : (now last : Option ℕ) → is_rotated now last ≡ false → ¬ Rotated now last
not-Rotated now last h r = let yes = (is_rotated_iff now last).1 r in cc

module _ (env : Env) where
  open env use {net, lib}
  open net use {W, Ctx}

  abbrev pub after_poll : Ctx → Sys env → Engine env
  after_poll ctx s = (poll_state env ctx s).1.engine

  -- The commands of one poll, and the epoch that is last afterwards. The epoch and the difficulty
  -- are those that the poll has stored.
  pub data TickSends (ctx : Ctx) (last : Option ℕ) (s : Sys env)
      : Option ℕ → List Sent → Type 0 where
    poll_failed : {e : Err} → (poll_state env ctx s).0 ≡ err e → TickSends ctx last s last []
    same_epoch :
        {now : Option ℕ}
        → (poll_state env ctx s).0 ≡ ok tt
        → (after_poll ctx s).epoch ≡ some now
        → ¬ Rotated now last
        → TickSends ctx last s now []
    new_epoch :
        {now diff : Option ℕ} {sent : List Sent}
        → (poll_state env ctx s).0 ≡ ok tt
        → (after_poll ctx s).epoch ≡ some now
        → Rotated now last
        → (after_poll ctx s).difficulty ≡ some diff
        → Retargets env
            (after_poll ctx s).reader
            (difficulty_to_hex32 diff)
            (after_poll ctx s).workers
            sent
        → TickSends ctx last s now sent

  -- The end of a poll.
  pub data Ticked (seen : W → List Sent) (ctx : Ctx) (last : Option ℕ) (s : Sys env)
      : Result (Option ℕ) × Sys env → Type 0 where
    tick_panicked : {t : Sys env} (m : String) → Ticked seen ctx last s (panic m, t)
    ticked :
        {t : Sys env} (now : Option ℕ) (sent : List Sent)
        → seen t.chain.world ≡ seen s.chain.world ++ sent
        → TickSends ctx last s now sent
        → Ticked seen ctx last s (ok now, t)

  -- What a poll has stored is what the engine reads.
  poll_state-stores :
      (ctx : Ctx) (s : Sys env)
      → (poll_state env ctx s).0 ≡ ok tt
      → ((after_poll ctx s).epoch ≡ some (current_epoch env (after_poll ctx s)))
        × ((after_poll ctx s).difficulty ≡ some (get_difficulty env (after_poll ctx s)))
  unfolding current_epoch get_difficulty
  poll_state-stores ctx s h =
      let p = poll_state-Polled env ctx s h in
      elim p.after [
        | inl same ↦ rw (same, p.is_polled) (refl, refl)
        | inr cached ↦ rw (cached.after, p.is_polled) (refl, refl)
      ]

  module _ (seen : W → List Sent) (sees : SeesCommands env seen) where
    Ticked-Sends :
        {P : List Sent → Type 0} {ctx : Ctx} {last : Option ℕ} {s t : Sys env}
        {out : Result (Unit {0}) × Sys env} (now : Option ℕ)
        → seen t.chain.world ≡ seen s.chain.world
        → ((sent : List Sent) → P sent → TickSends ctx last s now sent)
        → Sends env seen P t out
        → Ticked seen ctx last s (resume out.0 (λ _. pure now) fail out.1)
    Ticked-Sends now unseen why (panicked m) = tick_panicked m
    Ticked-Sends now unseen why (returned sent same seen_now what) =
        ticked now sent (seen_now ∙ ap (λ l. l ++ sent) unseen) (why sent what)

    -- Unless a call panics, one poll of `Run` sends commands to the workers only if it succeeds and
    -- finds an epoch that differs from the one before, both known. It then sends, in the order of
    -- the workers, one retarget to each whose account's challenge can be read, with that challenge
    -- and the difficulty that this very poll has stored, and none to the others. The epoch that it
    -- keeps for the next poll is the one that it found, or the one before where the poll fails. The
    -- observer of the commands must see each send, and none of the calls of the contract.
    pub poll_tick-Ticked :
        (ctx : Ctx) (last : Option ℕ) (s : Sys env)
        → Ticked seen ctx last s (poll_tick env ctx last s)
    unfolding poll_tick
    poll_tick-Ticked ctx last s =
        let p = poll_state env ctx s in
        let unseen : seen p.1.chain.world ≡ seen s.chain.world =
          poll_state-unseen env seen sees.views ctx s in
        let none_sent = unseen ∙ sym (append-nil (seen s.chain.world)) in
        let now = current_epoch env p.1.engine in
        resume_rule (Ticked seen ctx last s) p.0 _ _ p.1
          (λ u polled.
            let (epoch, diff) = poll_state-stores ctx s polled in
            elim (Bool-cases (is_rotated now last)) [
              | inl changed ↦ rw changed (
                  Ticked-Sends now unseen
                    (λ sent what.
                      new_epoch polled epoch ((is_rotated_iff now last).0 changed) diff what)
                    (retarget_all-Sends env seen sees p.1))
              | inr still ↦
                  rw still
                    (ticked now [] none_sent (same_epoch polled epoch (not-Rotated now last still)))
            ])
          (λ e failed. ticked last [] none_sent (poll_failed failed)) (λ m _. tick_panicked m)
