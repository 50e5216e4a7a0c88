-- ===== src/Chain/Abi.antt =====
-- internal/chain/abi.go: the contract's ABI. Packing and unpacking are go-ethereum's, as a parameter.
use hash256_miner.Base.{
  ℕ, Bool, false, Option, none, some, List, [], ◌∷◌, Bytes, codes, errorf, wrap, Result, ok, err,
  panic, Exec, lift, wrapping, and_then, ◌>>=◌,
}

-- What the library hands over or takes as `any`; a `*big.Int` may be nil.
pub data Value (Address : Type 0) : Type 0 where
  big_int : Option ℕ → Value Address
  bool : Bool → Value Address
  bytes32 : Bytes → Value Address
  address : Address → Value Address
  other : Value Address

pub record AbiLib (Address : Type 0) : Type 1 where
  pub Spec : Type 0  -- abi.ABI
  pub envelope : Bytes → Result (Bytes × Option Bytes)  -- json.Unmarshal: address and abi
  pub parse : Bytes → Result Spec  -- abi.JSON
  pub pack : Spec → Bytes → List (Value Address) → Result Bytes
  pub unpack : Spec → Bytes → Bytes → Result (List (Value Address))
  pub hex_to_address : Bytes → Address

pub record MiningState : Type 0 where
  pub era : Option ℕ
  pub reward : Option ℕ
  pub difficulty : Option ℕ
  pub minted : Option ℕ
  pub remaining : Option ℕ
  pub epoch : Option ℕ
  pub epoch_blocks_left : Option ℕ

pub record GenesisState : Type 0 where
  pub minted : Option ℕ
  pub remaining : Option ℕ
  pub eth_raised : Option ℕ
  pub complete : Bool

module _ {Address : Type 0} where
  unfoldable pub as_big_int : Value Address → Option ℕ
  as_big_int (big_int n) = n
  as_big_int _ = some 0

  pub as_bool : Value Address → Bool
  as_bool (bool b) = b
  as_bool _ = false

  unfoldable pub as_bytes32 : Value Address → Result Bytes
  as_bytes32 (bytes32 b) = ok b
  as_bytes32 _ = err (errorf "getChallenge expected bytes32, got %T")

  unfoldable pub mining_state_of : List (Value Address) → Result MiningState
  unfolding as_big_int
  mining_state_of (a ∷ b ∷ c ∷ d ∷ e ∷ f ∷ g ∷ []) = ok (record {
    era = as_big_int a;
    reward = as_big_int b;
    difficulty = as_big_int c;
    minted = as_big_int d;
    remaining = as_big_int e;
    epoch = as_big_int f;
    epoch_blocks_left = as_big_int g;
  })
  mining_state_of _ = err (errorf "miningState: expected 7 outputs, got %d")

  genesis_state_of : List (Value Address) → Result GenesisState
  unfolding as_big_int as_bool
  genesis_state_of (a ∷ b ∷ c ∷ d ∷ []) = ok (record {
    minted = as_big_int a;
    remaining = as_big_int b;
    eth_raised = as_big_int c;
    complete = as_bool d;
  })
  genesis_state_of _ = err (errorf "genesisState: expected 4 outputs, got %d")

  unfoldable pub challenge_of : List (Value Address) → Result Bytes
  unfolding as_bytes32
  challenge_of (a ∷ []) = as_bytes32 a
  challenge_of _ = err (errorf "getChallenge unexpected outputs")

  unfoldable pub mints_of : List (Value Address) → Result (Option ℕ)
  unfolding as_big_int
  mints_of (a ∷ []) = ok (as_big_int a)
  mints_of _ = err (errorf "mintsInBlock unexpected outputs")

module _ {Address : Type 0} (lib : AbiLib Address) where
  open lib use {Spec, envelope, parse, pack, unpack, hex_to_address}

  pub record Hash256Abi : Type 0 where
    pub abi : Spec
    pub addr : Address

  -- `envelope.ABI`, or the whole text where the envelope has none.
  unfoldable pub abi_text : Bytes → Option Bytes → Bytes
  abi_text raw none = raw
  abi_text raw (some text) = text

  -- The override wins over the address of the envelope.
  unfoldable pub choose_address : Spec → Bytes → Bytes → Result Hash256Abi
  choose_address spec [] [] = err (errorf "no contract address")
  choose_address spec [] (c ∷ s) = ok (record { abi = spec; addr = hex_to_address (c ∷ s) })
  choose_address spec (c ∷ s) _ = ok (record { abi = spec; addr = hex_to_address (c ∷ s) })

  -- `parseABI`
  unfoldable pub parse_abi : Bytes → Bytes → Result Hash256Abi
  parse_abi raw override = elim (envelope raw) [
    | ok (addr, text) ↦ elim (parse (abi_text raw text)) [
      | ok spec ↦ choose_address spec override addr
      | err e ↦ err (wrap "parse abi: %w" e)
      | panic s ↦ panic s
    ]
    | err e ↦ err (wrap "unmarshal abi envelope: %w" e)
    | panic s ↦ panic s
  ]

  -- `LoadABIFromFile`
  unfoldable pub load_abi_from_file :
      {W : Type 0} → (Bytes → Exec W Bytes) → Bytes → Bytes → Exec W Hash256Abi
  load_abi_from_file read_file path override = do
    raw ← wrapping "read abi file: %w" (read_file path)
    lift (parse_abi raw override)

  unfoldable pub pack_mine : Hash256Abi → Option ℕ → Result Bytes
  pack_mine h nonce = pack h.abi (codes "mine") (big_int nonce ∷ [])

  unfoldable pub pack_get_challenge : Hash256Abi → Address → Result Bytes
  pack_get_challenge h miner = pack h.abi (codes "getChallenge") (address miner ∷ [])

  unfoldable pub pack_mining_state : Hash256Abi → Result Bytes
  pack_mining_state h = pack h.abi (codes "miningState") []

  pub pack_genesis_state : Hash256Abi → Result Bytes
  pack_genesis_state h = pack h.abi (codes "genesisState") []

  unfoldable pub pack_mints_in_block : Hash256Abi → Option ℕ → Result Bytes
  pack_mints_in_block h block = pack h.abi (codes "mintsInBlock") (big_int block ∷ [])

  unfoldable pub unpack_mining_state : Hash256Abi → Bytes → Result MiningState
  unpack_mining_state h input = and_then (unpack h.abi (codes "miningState") input) mining_state_of

  pub unpack_genesis_state : Hash256Abi → Bytes → Result GenesisState
  unpack_genesis_state h input =
      and_then (unpack h.abi (codes "genesisState") input) genesis_state_of

  unfoldable pub unpack_challenge : Hash256Abi → Bytes → Result Bytes
  unpack_challenge h input = and_then (unpack h.abi (codes "getChallenge") input) challenge_of

  unfoldable pub unpack_mints_in_block : Hash256Abi → Bytes → Result (Option ℕ)
  unpack_mints_in_block h input = and_then (unpack h.abi (codes "mintsInBlock") input) mints_of
