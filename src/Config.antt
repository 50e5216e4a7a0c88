-- ===== src/Config.antt =====
-- internal/config/config.go: the configuration and its defaults. Reading the file and decoding the
-- TOML text are the caller's (`decode`).
pub mod Defaults
use hash256_miner.Base.{
  ℕ, zero, suc, ◌^◌, Bool, true, false, ◌||◌, List, [], ◌∷◌, Bytes, codes, text_eq, if◌then◌else◌,
  ◌==◌, Result, ok, err, errorf, Exec, lift, ℤ, pos, negsuc, wrapping, ◌>>=◌,
}
use hash256_miner.Std.Float64.{Float64}

pub record MinerConfig : Type 0 where
  pub mode : Bytes
  pub data_dir : Bytes
  pub cpu_threads : ℤ
  pub gpu_devices : List ℤ
  pub batch_size : ℕ
  pub core_binary : Bytes

pub record RpcConfig : Type 0 where
  pub endpoints : List Bytes
  pub submit_endpoints : List Bytes
  pub chain_id : ℤ
  pub request_timeout_ms : ℤ

pub record ContractConfig : Type 0 where
  pub address : Bytes

pub record WalletConfig : Type 0 where
  pub mode : Bytes
  pub keystore : Bytes
  pub passphrase_env : Bytes
  pub passphrase_file : Bytes
  pub mnemonic_file : Bytes
  pub accounts : ℤ

pub record MiningConfig (F : Type 0) : Type 0 where
  pub poll_interval_ms : ℤ
  pub submit_strategy : Bytes
  pub max_priority_fee_gwei : F
  pub priority_fee_bump_near_cap : F
  pub gas_limit_floor : ℕ
  pub gas_limit_ceiling : ℕ
  pub gas_limit_safety_mult : F
  pub verify_before_submit : Bool
  pub stand_by_poll_interval_ms : ℤ

pub record Config (F : Type 0) : Type 0 where
  pub miner : MinerConfig
  pub rpc : RpcConfig
  pub contract : ContractConfig
  pub wallet : WalletConfig
  pub mining : MiningConfig F

-- `if s == "" { s = d }`
unfoldable pub or_text : Bytes → Bytes → Bytes
or_text [] d = d
or_text (c ∷ s) d = c ∷ s

-- `if n == 0 { n = d }`
unfoldable pub or_number : ℕ → ℕ → ℕ
or_number zero d = d
or_number (suc n) d = suc n

-- The same at an `int`, whose defaults are positive.
unfoldable pub or_int : ℤ → ℕ → ℤ
or_int (pos zero) d = pos d
or_int (pos (suc n)) d = pos (suc n)
or_int (negsuc n) d = negsuc n

unfoldable pub is_miner_mode : Bytes → Bool
is_miner_mode m = text_eq m (codes "auto") || (text_eq m (codes "cpu") || text_eq m (codes "gpu"))

unfoldable pub is_wallet_mode : Bytes → Bool
is_wallet_mode m = text_eq m (codes "single") || text_eq m (codes "multi")

unfoldable pub is_empty : List Bytes → Bool
is_empty [] = true
is_empty (x ∷ xs) = false

abbrev contract_address : Bytes
contract_address = codes "0xAC7b5d06fa1e77D08aea40d46cB7C5923A87A0cc"

unfoldable pub miner_defaults : MinerConfig → MinerConfig
unfolding or_text or_number
miner_defaults m = record m {
  mode = or_text m.mode (codes "auto");
  data_dir = or_text m.data_dir (codes "./data");
  batch_size = or_number m.batch_size (2 ^ 20);
}

unfoldable pub rpc_defaults : RpcConfig → RpcConfig
unfolding or_int
rpc_defaults r = record r {
  chain_id = or_int r.chain_id 1;
  request_timeout_ms = or_int r.request_timeout_ms 8000;
}

unfoldable pub wallet_defaults : WalletConfig → WalletConfig
unfolding or_text or_int
wallet_defaults w = record w {
  mode = or_text w.mode (codes "single");
  accounts = or_int w.accounts 5;
}

module _ (fl : Float64) where
  open fl use {F, literal, feq}

  -- `if x == 0 { x = d }`
  unfoldable pub or_float : F → F → F
  or_float x d = if feq x (literal 0 1) then d else x

  unfoldable pub mining_defaults : MiningConfig F → MiningConfig F
  unfolding or_text or_number or_int or_float
  mining_defaults m = record m {
    poll_interval_ms = or_int m.poll_interval_ms 9000;
    stand_by_poll_interval_ms = or_int m.stand_by_poll_interval_ms 30000;
    submit_strategy = or_text m.submit_strategy (codes "eip1559");
    max_priority_fee_gwei = or_float m.max_priority_fee_gwei (literal 30 10);
    priority_fee_bump_near_cap = or_float m.priority_fee_bump_near_cap (literal 25 10);
    gas_limit_floor = or_number m.gas_limit_floor 200000;
    gas_limit_ceiling = or_number m.gas_limit_ceiling 450000;
    gas_limit_safety_mult = or_float m.gas_limit_safety_mult (literal 15 10);
  }

  -- Every field with its default.
  unfoldable pub defaulted : Config F → Config F
  unfolding miner_defaults rpc_defaults wallet_defaults mining_defaults or_text
  defaulted c = record {
    miner = miner_defaults c.miner;
    rpc = rpc_defaults c.rpc;
    contract = record { address = or_text c.contract.address contract_address };
    wallet = wallet_defaults c.wallet;
    mining = mining_defaults c.mining;
  }

  -- An error drops the configuration, so the checks may look at the finished one.
  unfoldable pub apply_defaults : Config F → Result (Config F)
  apply_defaults c =
      let d = defaulted c in
      if is_miner_mode d.miner.mode
      then if is_empty d.rpc.endpoints
        then err (errorf "rpc.endpoints is required")
        else if is_wallet_mode d.wallet.mode
        then ok d
        else err (errorf "wallet.mode must be single|multi, got %q")
      else err (errorf "miner.mode must be auto|cpu|gpu, got %q")

  -- `abs_path`, `read_file` and `decode_toml` are library calls on the state `W`.
  unfoldable pub load :
      {W : Type 0}
      → (Bytes → Exec W Bytes)
      → (Bytes → Exec W Bytes)
      → (Bytes → Result (Config F))
      → Bytes
      → Exec W (Config F)
  unfolding apply_defaults
  load abs_path read_file decode_toml path = do
    p ← wrapping "resolve config path: %w" (abs_path path)
    text ← wrapping "read config %s: %w" (read_file p)
    c ← wrapping "decode toml: %w" (lift (decode_toml text))
    lift (apply_defaults c)
