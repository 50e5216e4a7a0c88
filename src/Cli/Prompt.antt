-- ===== src/Cli/Prompt.antt =====
-- internal/cli/wallet.go: the questions of the wallet setup. The standard input is the list of its lines;
-- at its end `ReadString` returns an error. What is printed is left out.
pub mod Choice
use hash256_miner.Base.{
  ℕ, Bool, true, false, ◌||◌, List, [], ◌∷◌, Bytes, codes, text_eq, to_lower, trim_space, Err,
  foreign, Result, ok, err, Exec, handle, pure, if◌then◌else◌,
}

-- The input that is left, and the rest of the world.
pub record Session (W : Type 0) : Type 0 where
  pub input : List Bytes
  pub world : W

pub is_one_of : Bytes → List Bytes → Bool
is_one_of s [] = false
is_one_of s (v ∷ valid) = text_eq s v || is_one_of s valid

-- The loop of `askChoice`, with the lines that it leaves.
pub choose : List Bytes → Bytes → List Bytes → Bytes × List Bytes
choose valid def [] = (def, [])
choose valid def (line ∷ lines) =
    let again = choose valid def lines in
    if text_eq (trim_space line) []
    then (def, lines)
    else if is_one_of (trim_space line) valid
    then (trim_space line, lines)
    else again

-- `s == ""` gives the default.
unfoldable pub or_default : Bytes → Bytes → Bytes
or_default def [] = def
or_default def (c ∷ s) = c ∷ s

unfoldable pub is_yes : Bool → Bytes → Bool
is_yes def [] = def
is_yes def (c ∷ s) = text_eq (c ∷ s) (codes "y") || text_eq (c ∷ s) (codes "yes")

module _ {W : Type 0} where
  -- `reader.ReadString('\n')`
  unfoldable pub read_string : Exec (Session W) Bytes
  read_string s = elim s.input [
    | [] ↦ (err (foreign "EOF"), s)
    | line ∷ lines ↦ (ok line, record s { input = lines })
  ]

  abbrev pub in_session : {A : Type 0} → Exec W A → Exec (Session W) A
  in_session m s = ((m s.world).0, record s { world = (m s.world).1 })

  -- `askChoice`
  unfoldable pub ask_choice : List Bytes → Bytes → Exec (Session W) Bytes
  unfolding choose
  ask_choice valid def s =
      let (answer, rest) = choose valid def s.input in (ok answer, record s { input = rest })

  -- `askString`
  unfoldable pub ask_string : Bytes → Exec (Session W) Bytes
  unfolding read_string or_default
  ask_string def =
      handle read_string (λ line. pure (or_default def (trim_space line))) (λ _. pure def)

  -- `askYesNo`
  unfoldable pub ask_yes_no : Bool → Exec (Session W) Bool
  unfolding read_string is_yes
  ask_yes_no def =
      handle read_string (λ line. pure (is_yes def (to_lower (trim_space line)))) (λ _. pure def)
