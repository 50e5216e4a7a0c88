-- ===== src/Examples/Desk.antt =====
-- A machine for the commands: one file beside the settings, a terminal that answers `pw`, a node that is up,
-- and the private numbers.
use hash256_miner.Base.{
  ℕ, ◌+◌, true, false, List, [], ◌∷◌, Bytes, codes, replicate, none, some, foreign, Result, ok, err,
  Exec, pos,
}
use hash256_miner.Std.Float64.{thousandths}
use hash256_miner.Chain.Rpc.{Rpc, Transaction}
use hash256_miner.Chain.Client.{Net}
use hash256_miner.Wallet.Manager.{KeyHeap}
use hash256_miner.Wallet.Keystore.{KeystoreLib, Files}
use hash256_miner.Wallet.Passphrase.{Os}
use hash256_miner.Orchestrator.Engine.{Host}
use hash256_miner.Cli.Machine.{Machine}
use hash256_miner.Cli.Prompt.{Session}
use hash256_miner.Examples.World.{a_client, contract_lib, settings}
use hash256_miner.Examples.Wallet.{fives, ones, write_envelope, read_envelope, hd}

pub record Desk : Type 0 where
  pub file : Bytes
  pub heap : KeyHeap

abbrev pub given : {A : Type 0} → A → Exec Desk A
given a w = (ok a, w)

abbrev pub desk_node : Rpc
desk_node = record {
  W = Desk;
  Ctx = ℕ;
  Conn = Bytes;
  Address = ℕ;
  Key = ℕ;
  Signed = Transaction ℕ;
  Hash = ℕ;
  with_timeout = λ ctx t w. ctx;
  dial = λ ctx url. given url;
  close = λ r w. w;
  chain_id_of = λ r ctx. given (pos 1);
  call_contract = λ r ctx to input. given input;
  block_number = λ r ctx. given 100;
  balance_at = λ r ctx a. given 50;
  base_fee_at_head = λ r ctx. given (some 30);
  suggest_gas_tip_cap = λ r ctx. given 2;
  nonce_at = λ r ctx a. given 7;
  pending_nonce_at = λ r ctx a. given 8;
  estimate_gas = λ r ctx m. given 100000;
  send_transaction = λ r ctx t. given tt;
  transaction_receipt = λ r ctx h. given (record { status = 1; block_number = 100 });
  sign_tx = λ id k t. ok t;
  hash_of = λ t. t.nonce;
}

abbrev pub desk_host : Host desk_node ℕ
desk_host = record {
  background = 0;
  ctx_err = λ ctx w. foreign "context canceled";
  start_worker = λ ctx bin. given 1;
  send = λ w c. given tt;
  receive = λ w. given none;
  stop_worker = λ w. given tt;
  rand_read = λ n. given (replicate n 1);
  addr_hex = λ a. codes "0xA5";
  keccak256 = λ b. 1 ∷ [];
}

-- A keystore is the address, the key and the passphrase.
abbrev pub plain_keystore : KeystoreLib ℕ ℕ
plain_keystore = record {
  address_of = λ k. k + 100;
  hex_to_address = λ s. elim s [ [] ↦ 0 | c ∷ rest ↦ c ];
  encrypt_key = λ read a k pass w. (ok (a ∷ k ∷ pass), w);
  decrypt_key = λ raw pass. elim raw [
    | [] ↦ err (foreign "empty keystore")
    | a ∷ rest ↦ elim rest [ [] ↦ err (foreign "no key") | k ∷ sealed ↦ ok (k, a) ]
  ];
  header_address = λ raw. elim raw [ [] ↦ err (foreign "empty keystore") | a ∷ rest ↦ ok (a ∷ []) ];
}

abbrev pub drawer : Files Desk
drawer = record {
  mkdir_all_parent = λ path. given tt;
  read_file = λ path w. (ok w.file, w);
  write_file = λ path text w. (ok tt, record w { file = text });
}

abbrev pub terminal : Os Desk
terminal = record {
  getenv = λ name. given [];
  stat_perm = λ path. given 0o600;
  read_file = λ path. given (codes "pw");
  is_terminal = given true;
  read_password = given (codes "pw");
}

abbrev pub packed : Result Bytes
packed = ok (1 ∷ 2 ∷ [])

abbrev pub desk : Machine
desk = record {
  env = record { fl = thousandths; net = desk_node; lib = contract_lib packed; host = desk_host };
  os = terminal;
  files = drawer;
  stat = λ path w. (err (foreign "no such file"), w);
  mkdir_all = λ path. given tt;
  abs_path = λ path. given path;
  decode_toml = λ text. ok settings;
  cipher = fives;
  keystore = plain_keystore;
  hd = hd;
  marshal = write_envelope;
  unmarshal = read_envelope;
  random = ones;
  new_entropy = λ n. given (replicate n 1);
  generate_key = given 9;
  key_hex = λ k. codes "09";
  hex_to_ecdsa = λ s. ok 9;
  eth_text = λ w. codes "0.000000";
  scan_int = λ s. ok (pos 2);
  signal_context = λ ctx w. ctx;
  is_canceled = λ s. true;
  key_ptr = λ k. some k;
  heap_of = λ w. w.heap;
  set_heap = λ h w. record w { heap = h };
}

-- The file is the keystore of the key 9, and every private number is 77.
abbrev pub opened : Desk
opened = record { file = 109 ∷ 9 ∷ codes "pw"; heap = λ p. some 77 }

abbrev pub desk_net : Net Desk Bytes
desk_net = record {
  world = opened;
  client = λ p. a_client (codes "up" ∷ []) false (some (codes "up"));
}

abbrev pub typing : List Bytes → Session Desk
typing lines = record { input = lines; world = opened }
