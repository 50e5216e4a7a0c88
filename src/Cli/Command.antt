-- ===== src/Cli/Command.antt =====
-- The part of `github.com/spf13/cobra` that internal/cli uses: commands as values, and the choice of a
-- command by the words of the command line, which is cobra's.
use hash256_miner.Base.{
  ◌≡◌, Bytes, text_eq, Option, none, some, List, [], ◌∷◌, Result, ok, if◌then◌else◌,
}

-- `cmd.Flags().StringVar`: the name, the default and the help text.
pub record Flag : Type 0 where
  pub name : Bytes
  pub default : Bytes
  pub usage : Bytes

-- The values of a command's flags, by name.
abbrev pub Values : Type 0
Values = Bytes → Bytes

-- `cobra.Command`, with `RunE` for a command that has one, and what `AddCommand` has added. `RunE`
-- reads the variables of the flags, and does something of the type `R`.
mutual
  pub data Command (R : Type 0) : Type 0 where
    command : Bytes → Bytes → List Flag → Option (Values → R) → Commands R → Command R

  pub data Commands (R : Type 0) : Type 0 where
    no_more : Commands R
    and_command : Command R → Commands R → Commands R

module _ {R : Type 0} where
  -- `Use`, the word that names the command.
  unfoldable pub use_line_of : Command R → Bytes
  use_line_of (command use_line short flags run_e subs) = use_line

  unfoldable pub flags_of : Command R → List Flag
  flags_of (command use_line short flags run_e subs) = flags

  unfoldable pub run_e_of : Command R → Option (Values → R)
  run_e_of (command use_line short flags run_e subs) = run_e

  -- A property of a command and of all below it.
  unfoldable mutual
    pub Every : (Command R → Type 0) → Command R → Type 0
    Every P (command use_line short flags run_e subs) =
        P (command use_line short flags run_e subs) × EveryIn P subs

    pub EveryIn : (Command R → Type 0) → Commands R → Type 0
    EveryIn P no_more = Unit
    EveryIn P (and_command c rest) = Every P c × EveryIn P rest

-- The values that the words of the command line give, on top of the defaults.
unfoldable pub values_of : List Flag → (Bytes → Option Bytes) → Values
values_of [] given name = []
values_of (f ∷ flags) given name =
    let others = values_of flags given name in
    if text_eq f.name name then elim (given name) [ none ↦ f.default | some v ↦ v ] else others

-- A command that was chosen, with its `RunE` and the flags that are given.
pub record Chosen (R : Type 0) : Type 0 where
  pub target : Command R
  pub run_e : Values → R
  pub given : Bytes → Option Bytes

-- `find` is the command that the words choose, an error for an unknown command or flag, or nothing
-- where cobra prints a help text.
pub record Cobra (R : Type 0) : Type 0 where
  pub find : Command R → List Bytes → Result (Option (Chosen R))

-- What cobra documents: it chooses a command of the tree, and runs its `RunE`.
pub record ChoosesBelow {R : Type 0} (cobra : Cobra R) (root : Command R) : Type 1 where
  pub below :
      (words : List Bytes) {c : Chosen R}
      → cobra.find root words ≡ ok (some c)
      → (P : Command R → Type 0) → Every P root
      → P c.target
  pub runs :
      (words : List Bytes) {c : Chosen R}
      → cobra.find root words ≡ ok (some c)
      → run_e_of c.target ≡ some c.run_e
