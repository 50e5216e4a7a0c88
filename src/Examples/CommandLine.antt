-- ===== src/Examples/CommandLine.antt =====
-- internal/cli/root.go with a small stand-in for cobra: the words name a command below the root, or end in
-- a command without `RunE`; no flag is given.
use hash256_miner.Base.{
  true, false, ◌≡◌, refl, Bytes, codes, text_eq, Option, none, some, List, [], ◌∷◌, Err, foreign,
  Result, ok, err, ok-injective, Bool-cases, inl, inr, if◌then◌else◌,
}
use hash256_miner.Log.{level_info, new_logger}
use hash256_miner.Cli.Command.{
  Values, Command, command, Commands, no_more, and_command, Chosen, Cobra, ChoosesBelow, Every,
  EveryIn, use_line_of, run_e_of,
}
use hash256_miner.Cli.Root.{Inputs, root, execute}
use hash256_miner.Cli.Root.Served.{Served, execute-Served}
use hash256_miner.Cli.Signals.{
  new_signals, signal_arrives, takes_signal, SignalSteps, begun, and_step,
}
use hash256_miner.Cli.Signals.Heard.{IsHeard, signals-IsHeard}
use hash256_miner.Examples.Desk.{desk, desk_net}

module _ {R : Type 0} where
  choice_of : Command R → Option (Values → R) → Option (Chosen R)
  choice_of c none = none
  choice_of c (some r) = some (record { target = c; run_e = r; given = λ name. none })

  mutual
    descend : Command R → List Bytes → Result (Option (Chosen R))
    descend (command use_line short flags run_e subs) [] =
        ok (choice_of (command use_line short flags run_e subs) run_e)
    descend (command use_line short flags run_e subs) (w ∷ words) = descend_in subs w words

    descend_in : Commands R → Bytes → List Bytes → Result (Option (Chosen R))
    descend_in no_more w words = err (foreign "unknown command")
    descend_in (and_command c rest) w words =
        let here = descend c words in
        let there = descend_in rest w words in if text_eq (use_line_of c) w then here else there

  choice_of_sound :
      (c : Command R) (run_e : Option (Values → R)) {ch : Chosen R}
      → choice_of c run_e ≡ some ch
      → (ch.target ≡ c) × (run_e ≡ some ch.run_e)
  unfolding choice_of
  choice_of_sound c none h = cc
  choice_of_sound c (some r) h = (cc, cc)

  -- What is asked of a choice.
  abbrev Sound : Chosen R → ((Command R → Type 0) → Type 0) → Type 1
  Sound ch Holds =
      ((P : Command R → Type 0) → Holds P → P ch.target) × (run_e_of ch.target ≡ some ch.run_e)

  mutual
    unfolding descend descend_in Every EveryIn run_e_of

    descend-sound :
        (c : Command R) (words : List Bytes) {ch : Chosen R}
        → descend c words ≡ ok (some ch)
        → Sound ch (λ P. Every P c)
    descend-sound (command use_line short flags run_e subs) [] h =
        let (at, runs) =
          choice_of_sound (command use_line short flags run_e subs) run_e (ok-injective h) in
        ((λ P every. rw at every.0), rw at runs)
    descend-sound (command use_line short flags run_e subs) (w ∷ words) h =
        let (below, runs) = descend_in-sound subs w words h in ((λ P every. below P every.1), runs)

    descend_in-sound :
        (subs : Commands R) (w : Bytes) (words : List Bytes) {ch : Chosen R}
        → descend_in subs w words ≡ ok (some ch)
        → Sound ch (λ P. EveryIn P subs)
    descend_in-sound no_more w words h = cc
    descend_in-sound (and_command c rest) w words h =
        elim (Bool-cases (text_eq (use_line_of c) w)) [
          | inl same ↦
              let (below, runs) = descend-sound c words (rw same at h) in
              ((λ P every. below P every.0), runs)
          | inr other ↦
              let (below, runs) = descend_in-sound rest w words (rw other at h) in
              ((λ P every. below P every.1), runs)
        ]

  words_only : Cobra R
  words_only = record { find = descend }

  words_only-ChoosesBelow : (c : Command R) → ChoosesBelow words_only c
  unfolding words_only
  words_only-ChoosesBelow c = record {
    below = λ words h P every. (descend-sound c words h).0 P every;
    runs = λ words h. (descend-sound c words h).1;
  }

abbrev nothing_typed : Inputs
nothing_typed = record { lines = []; ticks = [] }

abbrev plain_text : Err → Bytes
plain_text e = codes "error"

abbrev mine_status : List Bytes
mine_status = codes "mine" ∷ codes "status" ∷ []

execute-Served_example :
    Served desk nothing_typed words_only plain_text
      (codes "t")
      mine_status
      (new_logger [] level_info)
      desk_net
      (execute desk nothing_typed words_only plain_text
        (codes "t")
        mine_status
        (new_logger [] level_info)
        desk_net)
execute-Served_example =
    execute-Served desk nothing_typed words_only plain_text (codes "t") mine_status
      (new_logger [] level_info) desk_net (words_only-ChoosesBelow (root desk nothing_typed))

-- A signal comes, and the goroutine cancels the context.
interrupted :
    SignalSteps (record new_signals { listening = false; cancelled = true; arrived = true })
interrupted = and_step (and_step begun signal_arrives) (takes_signal refl refl)

signals-IsHeard_example :
    IsHeard (record new_signals { listening = false; cancelled = true; arrived = true })
signals-IsHeard_example = signals-IsHeard interrupted
