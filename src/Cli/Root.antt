-- ===== src/Cli/Root.antt =====
-- internal/cli/root.go, the commands of mine.go and wallet.go, and cmd/hash256-miner/main.go: the command
-- tree and `Execute`.
pub mod Served
use hash256_miner.Base.{
  ℕ, Option, none, some, List, [], ◌∷◌, Bytes, codes, ◌++◌, Err, String, Result, ok, err, panic,
  Exec, pure, lift, ◌>>=◌,
}
use hash256_miner.Log.{Logger, level_error, log}
use hash256_miner.Chain.Client as Chain
use hash256_miner.Chain.Client.{Net, M}
use hash256_miner.Orchestrator.Engine.{Env}
use hash256_miner.Orchestrator.Run.{Tick}
use hash256_miner.Cli.Command.{
  Flag, Values, Command, command, no_more, and_command, Chosen, Cobra, flags_of, values_of,
}
use hash256_miner.Cli.Machine.{Machine}
use hash256_miner.Cli.Prompt.{Session}
use hash256_miner.Cli.Mine.{run_mine_start, run_mine_status}
use hash256_miner.Cli.Setup.{run_wallet_init}
use hash256_miner.Cli.Balance.{run_wallet_list, run_wallet_balance}

abbrev pub default_config : Bytes
default_config = codes "configs/miner.toml"

-- `StringVar(&cfg, "config", "configs/miner.toml", …)`
abbrev pub config_flag : Bytes → Flag
config_flag usage = record { name = codes "config"; default = default_config; usage = usage }

-- What a `RunE` does: a state passed on, and a result whose value is dropped.
pub dropped : {S A : Type 0} → Exec S A → Exec S (Unit {0})
dropped act = do _ ← act; pure tt

-- `wallet init` on the lines of the standard input.
pub with_input :
    {W Conn : Type 0} → List Bytes → Exec (Session W) (Unit {0}) → Exec (Net W Conn) (Unit {0})
with_input lines act s =
    let out = act (record { input = lines; world = s.world }) in
    (out.0, record s { world = out.1.world })

-- How the process ends: with a status, or by a panic.
pub data Ending : Type 0 where
  exited : ℕ → Ending
  crashed : String → Ending

-- The inputs of the process from outside: the standard input, and the wakes of the engine's loop.
pub record Inputs : Type 0 where
  pub lines : List Bytes
  pub ticks : List Tick

module _ (m : Machine) (inputs : Inputs) where
  open m use {env}
  open env use {net, host}
  open net use {W, Ctx, Conn}

  -- `RunE` takes its context from the command.
  abbrev pub Routine : Type 0
  Routine = Ctx → M net (Unit {0})

  pub wallet_init_command : Command Routine
  wallet_init_command =
      command (codes "init") (codes "Interactive wallet setup (import existing or generate new)") []
        (some (λ values ctx. with_input inputs.lines (run_wallet_init m))) no_more

  pub wallet_list_command : Command Routine
  wallet_list_command =
      command (codes "list") (codes "List configured wallet accounts")
        (config_flag (codes "config file") ∷ [])
        (some (λ values ctx.
          Chain.on_world net (dropped (run_wallet_list m (values (codes "config"))))))
        no_more

  pub wallet_balance_command : Command Routine
  wallet_balance_command =
      command (codes "balance") (codes "Show ETH balance of configured wallet(s)")
        (config_flag (codes "config file") ∷ [])
        (some (λ values ctx. dropped (run_wallet_balance m ctx (values (codes "config"))))) no_more

  pub wallet_command : Command Routine
  wallet_command = command (codes "wallet") (codes "Wallet management") [] none (
      and_command wallet_init_command
        (and_command wallet_list_command (and_command wallet_balance_command no_more)))

  pub mine_start_command : Command Routine
  mine_start_command =
      command (codes "start") (codes "Start the mining loop")
        (config_flag (codes "path to TOML config") ∷ [])
        (some (λ values ctx. run_mine_start m ctx (values (codes "config")) inputs.ticks)) no_more

  -- It has no flag.
  pub mine_status_command : Command Routine
  mine_status_command =
      command (codes "status") (codes "Print on-chain mining state snapshot") []
        (some (λ values ctx. dropped (run_mine_status m ctx default_config))) no_more

  pub mine_command : Command Routine
  mine_command =
      command (codes "mine") (codes "Mining commands") [] none
        (and_command mine_start_command (and_command mine_status_command no_more))

  pub chain_command : Command Routine
  chain_command = command (codes "chain") (codes "On-chain inspection") [] none (
      and_command
        (command (codes "state") (codes "Print mining + genesis state snapshot")
          (config_flag (codes "config file") ∷ [])
          (some (λ values ctx. dropped (run_mine_status m ctx (values (codes "config"))))) no_more)
        no_more)

  -- `Root`
  pub root : Command Routine
  unfolding wallet_command mine_command chain_command
  root =
      command (codes "hash256-miner") (codes "CLI auto-miner for the HASH256 PoW token") [] none
        (and_command wallet_command (and_command mine_command (and_command chain_command no_more)))

  -- The chosen command's `RunE` on the values of its flags.
  pub run_chosen : Ctx → Option (Chosen Routine) → M net (Unit {0})
  run_chosen ctx none = pure tt
  run_chosen ctx (some c) = c.run_e (values_of (flags_of c.target) c.given) ctx

  -- `ExecuteContext`
  pub execute_context : Cobra Routine → Ctx → List Bytes → M net (Unit {0})
  unfolding run_chosen
  execute_context cobra ctx words = do chosen ← lift (cobra.find root words); run_chosen ctx chosen

  -- The end of `Execute`: the status, the log and what it writes to the standard error itself.
  pub ending : (Err → Bytes) → Bytes → Result (Unit {0}) → Logger → Ending × Logger × Bytes
  ending text time (ok u) l = (exited 0, l, [])
  ending text time (err e) l =
      (exited 1, log level_error time (text e) l, codes "exit: 1" ++ (10 ∷ []))
  ending text time (panic p) l = (crashed p, l, [])

  -- `Execute`, which is all of `main`; `text` and `time` are the formatted error and the clock.
  pub execute :
      Cobra Routine
      → (Err → Bytes)
      → Bytes
      → List Bytes
      → Logger
      → Net W Conn
      → (Ending × Logger × Bytes) × Net W Conn
  unfolding execute_context ending
  execute cobra text time words l s =
      let out = execute_context cobra host.background words s in (ending text time out.0 l, out.1)
