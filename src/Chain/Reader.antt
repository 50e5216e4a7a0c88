-- ===== src/Chain/Reader.antt =====
-- internal/chain/reader.go: the contract's view functions over a client.
use hash256_miner.Base.{ℕ, Option, Bytes, lift, wrapping, ◌>>=◌}
use hash256_miner.Chain.Rpc.{Rpc}
use hash256_miner.Chain.Client.{M}
use hash256_miner.Chain.Client.Calls.{call_contract}
use hash256_miner.Chain.Abi.{
  AbiLib, Hash256Abi, MiningState, GenesisState, pack_get_challenge, pack_mining_state,
  pack_genesis_state, pack_mints_in_block, unpack_mining_state, unpack_genesis_state,
  unpack_challenge, unpack_mints_in_block,
}

module _ (net : Rpc) (lib : AbiLib net.Address) where
  open net use {Ctx, Address}

  pub record Reader : Type 0 where
    pub client : ℕ
    pub abi : Hash256Abi lib

  unfoldable pub mining_state : Ctx → Reader → M net MiningState
  mining_state ctx r = do
    input ← lift (pack_mining_state lib r.abi)
    res ← wrapping "miningState call: %w" (call_contract net ctx r.client r.abi.addr input)
    lift (unpack_mining_state lib r.abi res)

  pub genesis_state : Ctx → Reader → M net GenesisState
  genesis_state ctx r = do
    input ← lift (pack_genesis_state lib r.abi)
    res ← wrapping "genesisState call: %w" (call_contract net ctx r.client r.abi.addr input)
    lift (unpack_genesis_state lib r.abi res)

  unfoldable pub get_challenge : Ctx → Reader → Address → M net Bytes
  get_challenge ctx r miner = do
    input ← lift (pack_get_challenge lib r.abi miner)
    res ← wrapping "getChallenge call: %w" (call_contract net ctx r.client r.abi.addr input)
    lift (unpack_challenge lib r.abi res)

  unfoldable pub mints_in_block : Ctx → Reader → Option ℕ → M net (Option ℕ)
  mints_in_block ctx r block = do
    input ← lift (pack_mints_in_block lib r.abi block)
    res ← wrapping "mintsInBlock call: %w" (call_contract net ctx r.client r.abi.addr input)
    lift (unpack_mints_in_block lib r.abi res)
