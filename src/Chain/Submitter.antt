-- ===== src/Chain/Submitter.antt =====
-- internal/chain/submitter.go: fees, gas limit, signing and broadcast of a `mine` transaction.
pub mod Gas
pub mod Attempts
use hash256_miner.Base.{
  ℕ, zero, suc, ◌+◌, ◌*◌, Bool, true, false, Option, none, some, Bytes, Result, Exec, pure, lift,
  handle, wrapping, ◌>>=◌, ◌>>◌, ltb, if◌then◌else◌, ℤ, pos, negsuc,
}
use hash256_miner.Std.Float64.{Float64}
use hash256_miner.Chain.Rpc.{Rpc, Transaction, CallMsg}
use hash256_miner.Chain.Client.{M}
use hash256_miner.Chain.Client.Calls.{suggest_fees, estimate_gas, nonce_at, send_transaction}
use hash256_miner.Chain.Abi.{AbiLib, Hash256Abi, pack_mine}

module _ (fl : Float64) where
  open fl use {F, literal, of_ℕ, fmul, flt, to_uint64, big_product}

  -- `out.Sign() <= 0` gives 0. The panics of big.Float at NaN and at the infinities are left out: the
  -- float is finite.
  pub gwei_to_wei : F → ℕ
  gwei_to_wei gwei = elim (big_product gwei (literal 1000000000 1)) [ pos n ↦ n | negsuc n ↦ 0 ]

  -- The tip in wei: the configured one, bumped, and no less than the node suggests.
  pub priority_wei : F → F → ℕ → ℕ
  unfolding gwei_to_wei
  priority_wei tip_gwei bump suggested =
      let gwei = if flt (literal 1 1) bump then fmul tip_gwei bump else tip_gwei in
      let wei = gwei_to_wei gwei in if ltb wei suggested then suggested else wei

  -- The estimate with its safety factor, raised to the floor and cut at the ceiling.
  pub gas_limit : F → ℕ → ℕ → ℕ → ℕ
  gas_limit mult min_gas max_gas estimate =
      let scaled = to_uint64 (fmul (of_ℕ estimate) mult) in
      let raised = if ltb scaled min_gas then min_gas else scaled in
      if ltb max_gas raised then max_gas else raised

pub max_fee : ℕ → ℕ → ℕ
max_fee base tip = base * 2 + tip

module _ (fl : Float64) (net : Rpc) (lib : AbiLib net.Address) where
  open fl use {F}
  open net use {Ctx, Key, Address, Hash, Signed}

  pub record Submitter : Type 0 where
    pub client : ℕ
    pub submit_client : ℕ
    pub abi : Hash256Abi lib
    pub chain_id : ℤ
    pub min_gas : ℕ
    pub max_gas : ℕ
    pub safety_mult : F

  pub record SubmitParams : Type 0 where
    pub key : Key
    pub from : Address
    pub nonce : Option ℕ
    pub tip_cap_gwei : F
    pub bump_factor : F

  -- `if submit == nil { submit = c }`
  or_client : Option ℕ → ℕ → ℕ
  or_client none c = c
  or_client (some submit) c = submit

  -- `NewSubmitter`
  pub new_submitter : ℕ → Option ℕ → Hash256Abi lib → ℤ → ℕ → ℕ → F → Submitter
  unfolding or_client
  new_submitter c submit abi id min_gas max_gas mult = record {
    client = c;
    submit_client = or_client submit c;
    abi = abi;
    chain_id = id;
    min_gas = min_gas;
    max_gas = max_gas;
    safety_mult = mult;
  }

  pub call_msg : Submitter → SubmitParams → Bytes → ℕ → ℕ → CallMsg Address
  call_msg s p input base suggested =
      let tip = priority_wei fl p.tip_cap_gwei p.bump_factor suggested in
      record {
        from = p.from;
        to = s.abi.addr;
        gas_tip_cap = tip;
        gas_fee_cap = max_fee base tip;
        input = input;
      }

  unfoldable pub mine_tx : Submitter → SubmitParams → Bytes → ℕ → ℕ → ℕ → ℕ → Transaction Address
  mine_tx s p input base suggested estimate nonce =
      let tip = priority_wei fl p.tip_cap_gwei p.bump_factor suggested in
      record {
        chain_id = s.chain_id;
        nonce = nonce;
        to = s.abi.addr;
        value = 0;
        gas = gas_limit fl s.safety_mult s.min_gas s.max_gas estimate;
        gas_tip_cap = tip;
        gas_fee_cap = max_fee base tip;
        input = input;
      }

  -- `SubmitMine`
  unfoldable pub submit_mine : Ctx → Submitter → SubmitParams → M net Hash
  submit_mine ctx s p = do
    input ← wrapping "pack mine: %w" (lift (pack_mine lib s.abi p.nonce))
    fees ← wrapping "suggest fees: %w" (suggest_fees net ctx s.client)
    estimate ←
        handle (estimate_gas net ctx s.client (call_msg s p input fees.0 fees.1)) pure
          (λ _. pure s.min_gas)
    nonce ← wrapping "pending nonce: %w" (nonce_at net ctx s.client p.from true)
    signed ←
        wrapping "sign: %w"
          (lift (net.sign_tx s.chain_id p.key (mine_tx s p input fees.0 fees.1 estimate nonce)))
    wrapping "broadcast: %w" (send_transaction net ctx s.submit_client signed)
    pure (net.hash_of signed)
