-- ===== src/Examples/World.antt =====
-- Small stand-ins for the node, the contract and the worker processes, for the examples. The world is a
-- counter of calls.
use hash256_miner.Base.{
  ℕ, suc, Bool, true, false, List, [], ◌∷◌, Bytes, codes, text_eq, replicate, Option, none, some,
  foreign, Result, ok, err, Exec, if◌then◌else◌, pos,
}
use hash256_miner.Std.Float64.{thousandths}
use hash256_miner.Config.{Config}
use hash256_miner.Chain.Rpc.{Rpc, Transaction}
use hash256_miner.Chain.Client.{Client, Net}
use hash256_miner.Chain.Abi.{AbiLib, big_int, bytes32, Hash256Abi}
use hash256_miner.Wallet.Manager.{Account, single}
use hash256_miner.Orchestrator.Protocol.{cpu, WorkerEvent}
use hash256_miner.Orchestrator.Engine.{Host, Env, Miner, Sys}

-- A call that takes one step of the world.
abbrev pub answer : {A : Type 0} → A → Exec ℕ A
answer a w = (ok a, suc w)

-- Everything is up but the endpoint `down`.
abbrev pub node : Rpc
node = record {
  W = ℕ;
  Ctx = ℕ;
  Conn = Bytes;
  Address = ℕ;
  Key = ℕ;
  Signed = Transaction ℕ;
  Hash = ℕ;
  with_timeout = λ ctx t w. ctx;
  dial =
      λ ctx url w. (if text_eq url (codes "down") then err (foreign "refused") else ok url, suc w);
  close = λ r w. suc w;
  chain_id_of = λ r ctx. answer (pos 1);
  call_contract = λ r ctx to input. answer input;
  block_number = λ r ctx. answer 100;
  balance_at = λ r ctx a. answer 0;
  base_fee_at_head = λ r ctx. answer (some 30);
  suggest_gas_tip_cap = λ r ctx. answer 2;
  nonce_at = λ r ctx a. answer 7;
  pending_nonce_at = λ r ctx a. answer 8;
  estimate_gas = λ r ctx m. answer 100000;
  send_transaction = λ r ctx t. answer tt;
  transaction_receipt = λ r ctx h. answer (record { status = 1; block_number = 100 });
  sign_tx = λ id k t. ok t;
  hash_of = λ t. t.nonce;
}

abbrev pub a_client : List Bytes → Bool → Option Bytes → Client Bytes
a_client urls only r = record {
  endpoints = urls;
  chain_id = pos 1;
  timeout = pos 8000;
  submit_only = only;
  idx = 0;
  active = r;
}

-- Every client has the endpoints `down` and `up`, and holds a connection to the first.
abbrev pub failing : Net ℕ Bytes
failing = record {
  world = 0;
  client = λ p. a_client (codes "down" ∷ codes "up" ∷ []) false (some (codes "down"));
}

-- Every client is connected to its one endpoint.
abbrev pub connected : Net ℕ Bytes
connected = record { world = 0; client = λ p. a_client (codes "up" ∷ []) false (some (codes "up")) }

-- The library packs every call to the result `r`, and every output is a challenge, or seven fours for `miningState`.
abbrev pub contract_lib : Result Bytes → AbiLib ℕ
contract_lib r = record {
  Spec = Unit;
  envelope = λ raw. ok (raw, none);
  parse = λ s. ok tt;
  pack = λ s name args. r;
  unpack = λ s name input. ok (
      if text_eq name (codes "miningState")
      then replicate 7 (big_int (some 4))
      else bytes32 (replicate 32 7) ∷ []);
  hex_to_address = λ s. 1;
}

abbrev pub contract : (r : Result Bytes) → Hash256Abi (contract_lib r)
contract r = record { abi = tt; addr = 1 }

abbrev pub settings : Config ℕ
settings = record {
  miner = record {
    mode = codes "cpu";
    data_dir = codes "data";
    cpu_threads = pos 2;
    gpu_devices = [];
    batch_size = 1000;
    core_binary = [];
  };
  rpc = record {
    endpoints = codes "up" ∷ [];
    submit_endpoints = [];
    chain_id = pos 1;
    request_timeout_ms = pos 8000;
  };
  contract = record { address = codes "0x01" };
  wallet = record {
    mode = codes "single";
    keystore = codes "key";
    passphrase_env = [];
    passphrase_file = [];
    mnemonic_file = [];
    accounts = pos 1;
  };
  mining = record {
    poll_interval_ms = pos 1000;
    submit_strategy = codes "public";
    max_priority_fee_gwei = 3000;
    priority_fee_bump_near_cap = 2500;
    gas_limit_floor = 200000;
    gas_limit_ceiling = 450000;
    gas_limit_safety_mult = 1500;
    verify_before_submit = true;
    stand_by_poll_interval_ms = pos 0;
  };
}

abbrev pub an_account : Account ℕ ℕ
an_account = record { address = 5; private_key = 9; path = []; index = 0 }

abbrev pub a_miner : Miner ℕ ℕ
a_miner = record { ptr = 1; account = an_account }

abbrev pub workers : Host node ℕ
workers = record {
  background = 0;
  ctx_err = λ ctx w. foreign "context canceled";
  start_worker = λ ctx bin. answer 1;
  send = λ w c. answer tt;
  receive = λ w. answer none;
  stop_worker = λ w. answer tt;
  rand_read = λ n. answer (replicate n 1);
  addr_hex = λ a. codes "0xA5";
  keccak256 = λ b. 1 ∷ [];
}

abbrev pub machine : Result Bytes → Env
machine r = record { fl = thousandths; net = node; lib = contract_lib r; host = workers }

-- The engine has a challenge and a difficulty, and has submitted nothing.
abbrev pub idle : (r : Result Bytes) → Sys (machine r)
idle r = record {
  engine = record {
    cfg = settings;
    reader = record { client = 0; abi = contract r };
    submitter = record {
      client = 0;
      submit_client = 0;
      abi = contract r;
      chain_id = pos 1;
      min_gas = 200000;
      max_gas = 450000;
      safety_mult = 1500;
    };
    wallets = record { mode = single; accounts = an_account ∷ [] };
    core_bin = codes "core";
    workers =
        record {
          miner = a_miner;
          worker = 1;
          active_mode = cpu;
          last_hashrate = 0;
          last_hashes = 0;
          last_elapsed_ms = 0;
        }
        ∷ [];
    challenge = some (replicate 32 7);
    difficulty = some (some 1000);
    epoch = some (some 3);
    gpu_available = false;
    gpu_device_list = [];
    submitted = [];
    hashrate_acc = 0;
    hashes_acc = 0;
  };
  chain = connected;
}

-- The nonce 0, in 64 digits.
abbrev pub zero_nonce : Bytes
zero_nonce = codes "0x0000000000000000000000000000000000000000000000000000000000000000"

abbrev pub found_event : WorkerEvent ℕ
found_event = record {
  event = codes "found";
  version = [];
  cpu_threads = pos 0;
  gpu_devices = [];
  gpu = [];
  hashes = 10;
  hashrate = 5000;
  elapsed_ms = 20;
  nonce = zero_nonce;
  result = [];
  message = [];
}
