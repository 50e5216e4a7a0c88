-- ===== src/Cli/Signals/Heard.antt =====
-- internal/cli/mine.go: when the context of `signalContext` is done.
use hash256_miner.Base.{◌≡◌, refl, ◌⊎◌, inl, inr, true}
use hash256_miner.Cli.Signals.{
  Signals, IsDone, by_parent, by_cancel, SignalStep, signal_arrives, parent_ends, caller_cancels,
  takes_signal, sees_done, SignalSteps, begun, and_step,
}

-- The goroutine stands where it can take the signal that waits.
pub record IsWaiting (s : Signals) : Type 0 where
  pub queued : s.queued ≡ true
  pub listening : s.listening ≡ true

pub data IsCaused (s : Signals) : Type 0 where
  by_signal : s.arrived ≡ true → IsCaused s
  by_parent_end : s.parent_done ≡ true → IsCaused s
  by_caller : s.called ≡ true → IsCaused s

-- A signal that has come is heard or waits to be, only a signal that has come waits, the goroutine is
-- there until the context is done, and the context is done for a cause.
pub record IsHeard (s : Signals) : Type 0 where
  pub heard : s.arrived ≡ true → IsDone s ⊎ IsWaiting s
  pub genuine : s.queued ≡ true → s.arrived ≡ true
  pub there : IsDone s ⊎ (s.listening ≡ true)
  pub caused : IsDone s → IsCaused s

IsHeard-SignalStep : {s t : Signals} → SignalStep s t → IsHeard s → IsHeard t
IsHeard-SignalStep {s} signal_arrives h = record {
  heard = λ _. elim h.there [
    | inl (by_parent p) ↦ inl (by_parent p)
    | inl (by_cancel c) ↦ inl (by_cancel c)
    | inr l ↦ inr (record { queued = refl; listening = l })
  ];
  genuine = λ _. refl;
  there = elim h.there [
    | inl (by_parent p) ↦ inl (by_parent p)
    | inl (by_cancel c) ↦ inl (by_cancel c)
    | inr l ↦ inr l
  ];
  caused = λ _. by_signal refl;
}
IsHeard-SignalStep {s} parent_ends h = record {
  heard = λ _. inl (by_parent refl);
  genuine = h.genuine;
  there = inl (by_parent refl);
  caused = λ _. by_parent_end refl;
}
IsHeard-SignalStep {s} caller_cancels h = record {
  heard = λ _. inl (by_cancel refl);
  genuine = h.genuine;
  there = inl (by_cancel refl);
  caused = λ _. by_caller refl;
}
IsHeard-SignalStep {s} (takes_signal l q) h = record {
  heard = λ _. inl (by_cancel refl);
  genuine = λ e. cc;
  there = inl (by_cancel refl);
  caused = λ _. by_signal (h.genuine q);
}
IsHeard-SignalStep {s} (sees_done l (by_parent p)) h = record {
  heard = λ _. inl (by_parent p);
  genuine = h.genuine;
  there = inl (by_parent p);
  caused = λ _. by_parent_end p;
}
IsHeard-SignalStep {s} (sees_done l (by_cancel c)) h =
    let cause : IsCaused s = h.caused (by_cancel c) in
    record {
      heard = λ _. inl (by_cancel c);
      genuine = h.genuine;
      there = inl (by_cancel c);
      caused = λ _. elim cause [
        | by_signal a ↦ by_signal a
        | by_parent_end p ↦ by_parent_end p
        | by_caller d ↦ by_caller d
      ];
    }

-- However signals, the caller and the goroutine of `signalContext` interleave, a signal is not
-- lost: once one has come, the context is done, or the signal waits in the channel and the
-- goroutine listens for it. The goroutine listens until the context is done, and the context is
-- done only after a signal, the end of its parent, or a cancellation by the caller.
pub signals-IsHeard : {s : Signals} → SignalSteps s → IsHeard s
signals-IsHeard begun = record {
  heard = λ e. cc;
  genuine = λ e. cc;
  there = inr refl;
  caused = λ d. elim d [ by_parent e ↦ cc | by_cancel e ↦ cc ];
}
signals-IsHeard (and_step run step) = IsHeard-SignalStep step (signals-IsHeard run)
