-- ===== src/Examples/Mining.antt =====
-- internal/cli/mine.go: a run of `mine start` from the configuration to its cancellation.
use hash256_miner.Base.{refl, [], codes, err, foreign, trim_space, trim_left, is_space, text_eq}
use hash256_miner.Std.Float64.{thousandths}
use hash256_miner.Chain.Rpc.{Rpc}
use hash256_miner.Config.{
  or_text, or_number, or_int, or_float, is_miner_mode, is_wallet_mode, is_empty, miner_defaults,
  rpc_defaults, wallet_defaults, mining_defaults, defaulted, apply_defaults, load,
}
use hash256_miner.Chain.Client.{
  slot, close_active, activate, try_endpoint, visit, at_slot, connect_from, connect, new_client,
  with_client, connect_if_closed, call_active, close_client, bump_idx, call_again, reconnect,
}
use hash256_miner.Chain.Client.Calls.{with_deadline, call_contract}
use hash256_miner.Chain.Abi.{
  abi_text, choose_address, parse_abi, load_abi_from_file, pack_mining_state,
}
use hash256_miner.Chain.Reader.{mining_state}
use hash256_miner.Wallet.Keystore.{load_keystore}
use hash256_miner.Wallet.Manager.{load_single}
use hash256_miner.Wallet.Passphrase.{prompt_password, nonempty_or, from_env, from_file, resolve}
use hash256_miner.Orchestrator.Engine.{poll_state}
use hash256_miner.Orchestrator.Run.{run, new_engine, miners_from}
use hash256_miner.Cli.Machine.{
  Machine, load_config, resolve_wallet_passphrase, load_wallet, wipe_wallet,
}
use hash256_miner.Cli.Mine.{
  build_chain, known_wallet, unlock, mine, run_mine_start, build_submit_client, new_submit,
  resolve_core_binary, configured_or, find_binary, run_engine, finish, is_shutdown, close_submit,
}
use hash256_miner.Cli.Mine.Exits.{Mined, run_mine_start-Mined}
use hash256_miner.Examples.World.{contract_lib}
use hash256_miner.Examples.Desk.{given, desk_node, desk_host, packed, desk, desk_net}

-- Every call of the contract is cancelled.
abbrev cancelling_node : Rpc
cancelling_node = record desk_node {
  call_contract = λ r ctx to input w. (err (foreign "context canceled"), w);
}

-- The worker binary is there.
abbrev mining_desk : Machine
mining_desk = record desk {
  env = record {
    fl = thousandths;
    net = cancelling_node;
    lib = contract_lib packed;
    host = record {
      background = desk_host.background;
      ctx_err = desk_host.ctx_err;
      start_worker = desk_host.start_worker;
      send = desk_host.send;
      receive = desk_host.receive;
      stop_worker = desk_host.stop_worker;
      rand_read = desk_host.rand_read;
      addr_hex = desk_host.addr_hex;
      keccak256 = desk_host.keccak256;
    };
  };
  stat = λ path. given tt;
}

run_mine_start-Mined_example : Mined mining_desk 0 (codes "miner.toml") [] desk_net
unfolding run_mine_start new_engine bump_idx call_again reconnect wipe_wallet close_client
    close_submit unlock known_wallet load_config load apply_defaults defaulted miner_defaults
    rpc_defaults wallet_defaults mining_defaults or_text or_number or_int or_float is_miner_mode
    is_wallet_mode is_empty text_eq resolve_wallet_passphrase resolve from_env from_file nonempty_or
    prompt_password trim_space trim_left is_space load_wallet load_single load_keystore mine
    build_chain new_client connect connect_from at_slot visit try_endpoint activate close_active
    slot load_abi_from_file parse_abi choose_address abi_text build_submit_client new_submit
    resolve_core_binary configured_or find_binary run_engine finish is_shutdown run miners_from
    poll_state mining_state pack_mining_state call_contract with_deadline with_client
    connect_if_closed call_active
run_mine_start-Mined_example =
    run_mine_start-Mined mining_desk 0 (codes "miner.toml") [] desk_net refl
