-- ===== src/Examples/Cli.antt =====
-- internal/cli and internal/logx at one desk.
use hash256_miner.Base.{
  ℕ, ◌≡◌, ◌⊎◌, refl, true, List, [], ◌∷◌, Bytes, codes, none, some, ok-injective, trim_space,
  trim_left, is_space, trim_0x, text_eq,
}
use hash256_miner.Std.Float64.{thousandths}
use hash256_miner.Config.{
  Config, or_text, or_number, or_int, or_float, is_miner_mode, is_wallet_mode, is_empty,
  miner_defaults, rpc_defaults, wallet_defaults, mining_defaults, defaulted, apply_defaults, load,
}
use hash256_miner.Chain.Client.{
  slot, close_active, activate, try_endpoint, visit, at_slot, connect_from, connect, new_client,
}
use hash256_miner.Chain.Abi.{abi_text, choose_address, parse_abi, load_abi_from_file}
use hash256_miner.Wallet.Keystore.{load_keystore, save_keystore}
use hash256_miner.Wallet.Keystore.RoundTrip.{KeystoreLaws}
use hash256_miner.Wallet.Manager.{Account, Manager, single, load_single}
use hash256_miner.Wallet.Passphrase.{
  prompt_password, nonempty_or, from_env, from_file, resolve, refuse_empty, prompt_password_confirm,
}
use hash256_miner.Cli.Prompt.{read_string}
use hash256_miner.Cli.Machine.{load_config, resolve_wallet_passphrase, load_wallet}
use hash256_miner.Cli.Mine.{main_cell, build_chain, known_wallet, unlock, mine, run_mine_start}
use hash256_miner.Cli.Mine.Wiped.{HeapStored, run_mine_start-clears}
use hash256_miner.Cli.Mine.Closed.{after_close, with_chain, mine-closes}
use hash256_miner.Cli.Setup.{private_digits, may_overwrite, private_text, run_init_single}
use hash256_miner.Cli.Setup.Single.{Created, run_init_single-Created}
use hash256_miner.Examples.World.{settings, contract}
use hash256_miner.Examples.Wallet.{ones}
use hash256_miner.Examples.Desk.{desk, drawer, plain_keystore, packed, desk_net, typing}

-- The settings with their defaults.
abbrev completed : Config ℕ
completed = defaulted thousandths settings

desk-HeapStored : HeapStored desk
desk-HeapStored h w = refl

abbrev the_account : Account ℕ ℕ
the_account = record { address = 109; private_key = 9; path = []; index = 0 }

abbrev the_wallet : Manager ℕ ℕ
the_wallet = record { mode = single; accounts = the_account ∷ [] }

run_mine_start-clears_example :
    ((run_mine_start desk 0 (codes "miner.toml") [] desk_net).1.world.heap 9 ≡ none)
    ⊎ ((run_mine_start desk 0 (codes "miner.toml") [] desk_net).1.world.heap 9 ≡ some 0)
unfolding unlock known_wallet load_config load apply_defaults defaulted miner_defaults rpc_defaults
    wallet_defaults mining_defaults or_text or_number or_int or_float is_miner_mode is_wallet_mode
    is_empty text_eq resolve_wallet_passphrase resolve from_env from_file nonempty_or
    prompt_password trim_space trim_left is_space load_wallet load_single load_keystore
run_mine_start-clears_example =
    run_mine_start-clears desk 0 (codes "miner.toml") [] desk_net {cfg = completed}
      {wm = the_wallet} 0 9 the_account desk-HeapStored refl refl refl

mine-closes_example :
    (((mine desk 0 settings the_wallet [] desk_net).1.client main_cell).active ≡ none)
    × ((mine desk 0 settings the_wallet [] desk_net).1.world
        ≡ after_close desk
            ((with_chain desk 0 settings the_wallet []
                (contract packed)
                (build_chain desk 0 settings desk_net).1).1.client
              main_cell).active
            (with_chain desk 0 settings the_wallet []
              (contract packed)
              (build_chain desk 0 settings desk_net).1).1.world)
unfolding build_chain new_client connect connect_from at_slot visit try_endpoint activate
    close_active slot load_abi_from_file parse_abi choose_address abi_text
mine-closes_example =
    mine-closes desk 0 settings the_wallet [] desk_net {abi = contract packed} refl

desk-KeystoreLaws : KeystoreLaws plain_keystore drawer ones
desk-KeystoreLaws = record {
  read_back = λ path raw w h. refl;
  decrypt_back = λ a k pass raw w h. rw (← ok-injective h) refl;
  header_back = λ a k pass raw w h. (a, [], rw (← ok-injective h) refl, refl);
}

run_init_single-Created_example :
    Created desk true
      (typing (codes "0x09" ∷ []))
      109
      (run_init_single desk true (typing (codes "0x09" ∷ []))).1.world
unfolding run_init_single may_overwrite private_text private_digits read_string
    prompt_password_confirm prompt_password refuse_empty text_eq trim_space trim_left is_space
    trim_0x save_keystore
run_init_single-Created_example =
    run_init_single-Created desk true (typing (codes "0x09" ∷ [])) {a = 109} desk-KeystoreLaws refl

abbrev typed_lines : List Bytes
typed_lines = codes "abc" ∷ codes "2" ∷ []
