-- ===== src/Chain/Rpc.antt =====
-- What the chain package takes from go-ethereum and `context`: connections and the calls on them, as a
-- parameter. `W` is the state of the world outside the program: nodes, clock and network.
use hash256_miner.Base.{ℕ, Bytes, Option, Exec, Result, ℤ}

pub record Transaction (Address : Type 0) : Type 0 where
  pub chain_id : ℤ
  pub nonce : ℕ
  pub to : Address
  pub value : ℕ
  pub gas : ℕ
  pub gas_tip_cap : ℕ
  pub gas_fee_cap : ℕ
  pub input : Bytes

pub record CallMsg (Address : Type 0) : Type 0 where
  pub from : Address
  pub to : Address
  pub gas_tip_cap : ℕ
  pub gas_fee_cap : ℕ
  pub input : Bytes

pub record Receipt : Type 0 where
  pub status : ℕ
  pub block_number : ℕ

pub record Rpc : Type 1 where
  pub W : Type 0
  pub Ctx : Type 0
  pub Conn : Type 0
  pub Address : Type 0
  pub Key : Type 0
  pub Signed : Type 0
  pub Hash : Type 0
  pub with_timeout : Ctx → ℤ → W → Ctx  -- context.WithTimeout, from the present clock
  pub dial : Ctx → Bytes → Exec W Conn  -- rpc.DialContext
  pub close : Conn → W → W
  pub chain_id_of : Conn → Ctx → Exec W ℤ
  pub call_contract : Conn → Ctx → Address → Bytes → Exec W Bytes
  pub block_number : Conn → Ctx → Exec W ℕ
  pub balance_at : Conn → Ctx → Address → Exec W ℕ
  pub base_fee_at_head : Conn → Ctx → Exec W (Option ℕ)  -- HeaderByNumber(nil).BaseFee
  pub suggest_gas_tip_cap : Conn → Ctx → Exec W ℕ
  pub nonce_at : Conn → Ctx → Address → Exec W ℕ
  pub pending_nonce_at : Conn → Ctx → Address → Exec W ℕ
  pub estimate_gas : Conn → Ctx → CallMsg Address → Exec W ℕ
  pub send_transaction : Conn → Ctx → Signed → Exec W (Unit {0})
  pub transaction_receipt : Conn → Ctx → Hash → Exec W Receipt
  pub sign_tx : ℤ → Key → Transaction Address → Result Signed  -- types.SignTx, London signer
  pub hash_of : Signed → Hash
