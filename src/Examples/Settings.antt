-- ===== src/Examples/Settings.antt =====
-- internal/config on a configuration that leaves fields out.
use hash256_miner.Base.{ℕ, true, [], ◌∷◌, codes, pos}
use hash256_miner.Std.Float64.{thousandths}
use hash256_miner.Config.{Config, defaulted}

abbrev sparse : Config ℕ
sparse = record {
  miner = record {
    mode = codes "gpu";
    data_dir = [];
    cpu_threads = pos 0;
    gpu_devices = pos 1 ∷ [];
    batch_size = 0;
    core_binary = [];
  };
  rpc = record {
    endpoints = codes "https://node" ∷ [];
    submit_endpoints = [];
    chain_id = pos 0;
    request_timeout_ms = pos 5000;
  };
  contract = record { address = [] };
  wallet = record {
    mode = [];
    keystore = codes "key";
    passphrase_env = [];
    passphrase_file = [];
    mnemonic_file = [];
    accounts = pos 0;
  };
  mining = record {
    poll_interval_ms = pos 0;
    submit_strategy = [];
    max_priority_fee_gwei = 2000;
    priority_fee_bump_near_cap = 0;
    gas_limit_floor = 0;
    gas_limit_ceiling = 300000;
    gas_limit_safety_mult = 0;
    verify_before_submit = true;
    stand_by_poll_interval_ms = pos 0;
  };
}

abbrev completed : Config ℕ
completed = defaulted thousandths sparse
