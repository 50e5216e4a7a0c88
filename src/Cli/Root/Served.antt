-- ===== src/Cli/Root/Served.antt =====
-- internal/cli/root.go: what a command line does.
use hash256_miner.Base.{
  ◌≡◌, refl, ap, Exec, Option, none, some, List, Bytes, codes, text_eq, ◌++◌, ◌∷◌, [], String, Err,
  Result, ok, err, panic, resume_rule,
}
use hash256_miner.Log.{Logger, level_error, log}
use hash256_miner.Chain.Client.{Net}
use hash256_miner.Cli.Command.{
  Values, Command, Chosen, Cobra, ChoosesBelow, Every, EveryIn, use_line_of, flags_of, run_e_of,
  values_of,
}
use hash256_miner.Cli.Machine.{Machine}
use hash256_miner.Cli.Mine.{run_mine_start, run_mine_status}
use hash256_miner.Cli.Setup.{run_wallet_init}
use hash256_miner.Cli.Balance.{run_wallet_list, run_wallet_balance}
use hash256_miner.Cli.Root.{
  dropped, with_input, Ending, exited, crashed, Inputs, Routine, wallet_init_command,
  wallet_list_command, wallet_balance_command, wallet_command, mine_start_command,
  mine_status_command, mine_command, chain_command, root, run_chosen, execute_context, ending,
  execute,
}

-- The file of the commands without `--config`.
abbrev pub usual_config : Bytes
usual_config = codes "configs/miner.toml"

-- The configuration file that the flags name.
abbrev pub config_path : (Bytes → Option Bytes) → Bytes
config_path given = elim (given (codes "config")) [ none ↦ usual_config | some path ↦ path ]

-- A result without its value.
abbrev pub ended : {A : Type 0} → Result A → Result (Unit {0})
ended r = elim r [ ok a ↦ ok tt | err e ↦ err e | panic p ↦ panic p ]

dropped_lem : {S A : Type 0} (act : Exec S A) (s : S) → dropped act s ≡ (ended (act s).0, (act s).1)
unfolding dropped
dropped_lem act s =
    resume_rule (λ out. out ≡ (ended (act s).0, (act s).1)) (act s).0 _ _ (act s).1
      (λ a e. rw e refl) (λ x e. rw e refl) (λ p e. rw e refl)

module _ (m : Machine) (inputs : Inputs) where
  open m use {env}
  open env use {net, host}
  open net use {W, Ctx, Conn}

  -- The routine of each command, by its word and the flags that are given: what it makes of a context
  -- and a state.
  pub data Serves (given : Bytes → Option Bytes) : Bytes → Routine m inputs → Type 0 where
    serves_init :
        {r : Routine m inputs}
        → ((ctx : Ctx) (s : Net W Conn)
            → r ctx s ≡ (
                let out = run_wallet_init m (record { input = inputs.lines; world = s.world }) in
                (out.0, record s { world = out.1.world })))
        → Serves given (codes "init") r
    serves_list :
        {r : Routine m inputs}
        → ((ctx : Ctx) (s : Net W Conn)
            → r ctx s ≡ (
                let out = run_wallet_list m (config_path given) s.world in
                (ended out.0, record s { world = out.1 })))
        → Serves given (codes "list") r
    serves_balance :
        {r : Routine m inputs}
        → ((ctx : Ctx) (s : Net W Conn)
            → r ctx s
              ≡ (let out = run_wallet_balance m ctx (config_path given) s in (ended out.0, out.1)))
        → Serves given (codes "balance") r
    serves_start :
        {r : Routine m inputs}
        → ((ctx : Ctx) (s : Net W Conn)
            → r ctx s ≡ run_mine_start m ctx (config_path given) inputs.ticks s)
        → Serves given (codes "start") r
    serves_status :
        {r : Routine m inputs}
        → ((ctx : Ctx) (s : Net W Conn)
            → r ctx s ≡ (let out = run_mine_status m ctx usual_config s in (ended out.0, out.1)))
        → Serves given (codes "status") r
    serves_state :
        {r : Routine m inputs}
        → ((ctx : Ctx) (s : Net W Conn)
            → r ctx s
              ≡ (let out = run_mine_status m ctx (config_path given) s in (ended out.0, out.1)))
        → Serves given (codes "state") r

  -- What a `RunE` of the tree does is the routine of its command.
  abbrev DoesServe : Command (Routine m inputs) → Type 0
  DoesServe c =
      (given : Bytes → Option Bytes) (r : Values → Routine m inputs)
      → run_e_of c ≡ some r
      → Serves given (use_line_of c) (r (values_of (flags_of c) given))

  some-injective : {A : Type 0} {a b : A} → some a ≡ some b → a ≡ b
  some-injective e = cc

  root-Every : Every DoesServe (root m inputs)
  unfolding Every EveryIn root wallet_command mine_command chain_command wallet_init_command
      wallet_list_command wallet_balance_command mine_start_command mine_status_command run_e_of
      with_input use_line_of flags_of values_of text_eq
  root-Every = (
    λ given r e. cc,
    (
      (
        λ given r e. cc,
        (
          (λ given r e. rw (← some-injective e) (serves_init (λ ctx s. refl)), tt),
          (
            (
              λ given r e. rw (← some-injective e) (
                  serves_list (λ ctx s.
                    ap (λ out. (out.0, record s { world = out.1 }))
                      (dropped_lem (run_wallet_list m (config_path given)) s.world))),
              tt,
            ),
            (
              (
                λ given r e. rw (← some-injective e) (
                    serves_balance
                      (λ ctx s. dropped_lem (run_wallet_balance m ctx (config_path given)) s)),
                tt,
              ),
              tt,
            ),
          ),
        ),
      ),
      (
        (
          λ given r e. cc,
          (
            (λ given r e. rw (← some-injective e) (serves_start (λ ctx s. refl)), tt),
            (
              (
                λ given r e.
                    rw (← some-injective e)
                      (serves_status (λ ctx s. dropped_lem (run_mine_status m ctx usual_config) s)),
                tt,
              ),
              tt,
            ),
          ),
        ),
        (
          (
            λ given r e. cc,
            (
              (
                λ given r e. rw (← some-injective e) (
                    serves_state
                      (λ ctx s. dropped_lem (run_mine_status m ctx (config_path given)) s)),
                tt,
              ),
              tt,
            ),
          ),
          tt,
        ),
      ),
    ),
  )

  -- What the process does with a command line.
  pub data Served (cobra : Cobra (Routine m inputs)) (text : Err → Bytes) (time : Bytes)
      (words : List Bytes) (l : Logger) (s : Net W Conn)
      : (Ending × Logger × Bytes) × Net W Conn → Type 0 where
    refused :
        {e : Err}
        → cobra.find (root m inputs) words ≡ err e
        → Served cobra text time words l s
            ((exited 1, log level_error time (text e) l, codes "exit: 1" ++ (10 ∷ [])), s)
    helped :
        cobra.find (root m inputs) words ≡ ok none
        → Served cobra text time words l s ((exited 0, l, []), s)
    broken :
        {p : String}
        → cobra.find (root m inputs) words ≡ panic p
        → Served cobra text time words l s ((crashed p, l, []), s)
    ran :
        {c : Chosen (Routine m inputs)} {r : Routine m inputs}
        → cobra.find (root m inputs) words ≡ ok (some c)
        → Serves c.given (use_line_of c.target) r
        → Served cobra text time words l s
            (ending m inputs text time (r host.background s).0 l, (r host.background s).1)

  chosen-Served :
      (cobra : Cobra (Routine m inputs)) (text : Err → Bytes) (time : Bytes) (words : List Bytes)
      (l : Logger) (s : Net W Conn)
      → ChoosesBelow cobra (root m inputs)
      → (o : Option (Chosen (Routine m inputs))) → cobra.find (root m inputs) words ≡ ok o
      → Served cobra text time words l s (
        ending m inputs text time (run_chosen m inputs host.background o s).0 l,
        (run_chosen m inputs host.background o s).1,
      )
  unfolding run_chosen ending
  chosen-Served cobra text time words l s sound none found = helped found
  chosen-Served cobra text time words l s sound (some c) found =
      ran found
        (sound.below words found DoesServe root-Every c.given c.run_e (sound.runs words found))

  -- Whatever the command line, `Execute` either prints a help text and exits with 0, or has an
  -- unknown command or flag and exits with 1, an error line in the log and the rest of the world as
  -- it was, or runs the routine of the chosen command and ends by its result, or panics in the
  -- library. `init` sets up a wallet, `list` and `balance` show the accounts, `start` mines, and
  -- `status` and `state` print the state of the chain, all but `init` with the configuration file
  -- that `--config` gives, `configs/miner.toml` without the flag, which `status` always takes. The
  -- library must choose a command of the tree and run its `RunE`.
  pub execute-Served :
      (cobra : Cobra (Routine m inputs)) (text : Err → Bytes) (time : Bytes) (words : List Bytes)
      (l : Logger) (s : Net W Conn)
      → ChoosesBelow cobra (root m inputs)
      → Served cobra text time words l s (execute m inputs cobra text time words l s)
  unfolding execute execute_context run_chosen ending
  execute-Served cobra text time words l s sound =
      let P : Result (Unit {0}) × Net W Conn → Type 0 =
        λ out. Served cobra text time words l s (ending m inputs text time out.0 l, out.1) in
      resume_rule P (cobra.find (root m inputs) words) _ _ s
        (chosen-Served cobra text time words l s sound) (λ e h. refused h) (λ p h. broken h)
