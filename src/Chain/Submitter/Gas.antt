-- ===== src/Chain/Submitter/Gas.antt =====
-- internal/chain/submitter.go: the numbers of a `mine` transaction, and the calls of `SubmitMine`.
use hash256_miner.Base.{
  ℕ, ◌+◌, ◌*◌, ◌≤◌, ◌<◌, ◌⊎◌, ◌≡◌, refl, arith, true, Bytes, ok, wrapping, lift, handle, pure,
  >>=-ok, wrapping-ok, ok-injective, sym,
}
use hash256_miner.Std.Float64.{Float64}
use hash256_miner.Chain.Rpc.{Rpc, Transaction}
use hash256_miner.Chain.Client.{Net}
use hash256_miner.Chain.Client.Calls.{suggest_fees, estimate_gas, nonce_at, send_transaction}
use hash256_miner.Chain.Abi.{AbiLib, pack_mine}
use hash256_miner.Chain.Submitter.{
  priority_wei, gas_limit, max_fee, Submitter, SubmitParams, call_msg, mine_tx, submit_mine,
}

module _ (fl : Float64) where
  open fl use {F, of_ℕ, fmul, to_uint64}

  -- With a floor that does not exceed the ceiling the gas limit lies between the two, whatever the
  -- float arithmetic makes of the estimate: it is the floor if the scaled estimate lies below it,
  -- the ceiling if the scaled estimate lies above that, and the scaled estimate otherwise.
  pub gas_limit_bounds :
      (mult : F) (min_gas max_gas estimate : ℕ)
      → min_gas ≤ max_gas
      → (min_gas ≤ gas_limit fl mult min_gas max_gas estimate)
        × (gas_limit fl mult min_gas max_gas estimate ≤ max_gas)
        × (((to_uint64 (fmul (of_ℕ estimate) mult) < min_gas)
              × (gas_limit fl mult min_gas max_gas estimate ≡ min_gas))
            ⊎ (((max_gas < to_uint64 (fmul (of_ℕ estimate) mult))
                  × (gas_limit fl mult min_gas max_gas estimate ≡ max_gas))
                ⊎ (gas_limit fl mult min_gas max_gas estimate
                    ≡ to_uint64 (fmul (of_ℕ estimate) mult))))
  unfolding gas_limit
  gas_limit_bounds mult min_gas max_gas estimate h = ground arith

  pub le-priority_wei :
      (tip_gwei bump : F) (suggested : ℕ) → suggested ≤ priority_wei fl tip_gwei bump suggested
  unfolding priority_wei
  le-priority_wei tip_gwei bump suggested = ground arith

module _ (fl : Float64) (net : Rpc) (lib : AbiLib net.Address) where
  open net use {W, Ctx, Conn, Hash, Signed}

  -- What a successful submission did: the call data is the packed nonce, and the transaction that
  -- was signed and sent carries it with fees and gas from these calls.
  pub record Submitted (ctx : Ctx) (p : Submitter fl net lib) (q : SubmitParams fl net lib)
      (h : Hash) : Type 0 where
    pub input : Bytes
    pub packed : pack_mine lib p.abi q.nonce ≡ ok input
    pub tx : Transaction net.Address
    pub signed : Signed
    pub signs : net.sign_tx p.chain_id q.key tx ≡ ok signed
    pub hash : h ≡ net.hash_of signed
    pub tx_input : tx.input ≡ input
    pub tx_to : tx.to ≡ p.abi.addr
    pub tx_value : tx.value ≡ 0
    pub tx_gas_floor : p.min_gas ≤ tx.gas
    pub tx_gas_ceiling : tx.gas ≤ p.max_gas
    pub base : ℕ
    pub suggested : ℕ
    pub at_fees : Net W Conn
    pub fees : (suggest_fees net ctx p.client at_fees).0 ≡ ok (base, suggested)
    pub tx_tip : suggested ≤ tx.gas_tip_cap
    pub tx_fee : tx.gas_fee_cap ≡ base * 2 + tx.gas_tip_cap
    pub at_nonce : Net W Conn
    pub tx_nonce : (nonce_at net ctx p.client q.from true at_nonce).0 ≡ ok tx.nonce
    pub at_send : Net W Conn
    pub sent : (send_transaction net ctx p.submit_client signed at_send).0 ≡ ok tt

  -- A submission that returns a hash has packed the nonce that it was given.
  pub submit_mine-packed :
      (ctx : Ctx) (p : Submitter fl net lib) (q : SubmitParams fl net lib) (s : Net W Conn)
      {h : Hash}
      → (submit_mine fl net lib ctx p q s).0 ≡ ok h
      → (input : Bytes) × (pack_mine lib p.abi q.nonce ≡ ok input)
  unfolding submit_mine
  submit_mine-packed ctx p q s e =
      let (input, e₁, _) =
        >>=-ok (wrapping "pack mine: %w" (lift (pack_mine lib p.abi q.nonce))) _ s e in
      (input, wrapping-ok _ (lift (pack_mine lib p.abi q.nonce)) _ e₁)

  -- A submission that returns a hash signed and sent one transaction: to the contract, of no value,
  -- with the packed nonce for its data, the gas between floor and ceiling, a tip of at least the
  -- node's suggestion, a fee cap of twice the base fee and the tip, and the pending account nonce.
  -- The floor must not exceed the ceiling.
  pub submit_mine_sound :
      (ctx : Ctx) (p : Submitter fl net lib) (q : SubmitParams fl net lib) (s : Net W Conn)
      {h : Hash}
      → p.min_gas ≤ p.max_gas
      → (submit_mine fl net lib ctx p q s).0 ≡ ok h
      → Submitted ctx p q h
  unfolding submit_mine mine_tx max_fee
  submit_mine_sound ctx p q s {h} lim e =
      let (input, e₁, r₁) =
        >>=-ok (wrapping "pack mine: %w" (lift (pack_mine lib p.abi q.nonce))) _ s e in
      let (fees, e₂, r₂) =
        >>=-ok (wrapping "suggest fees: %w" (suggest_fees net ctx p.client)) _ _ r₁ in
      let (estimate, _, r₃) =
        >>=-ok
          (handle (estimate_gas net ctx p.client (call_msg fl net lib p q input fees.0 fees.1)) pure
            (λ _. pure p.min_gas))
          _ _ r₂ in
      let (nonce, e₄, r₄) =
        >>=-ok (wrapping "pending nonce: %w" (nonce_at net ctx p.client q.from true)) _ _ r₃ in
      let (signed, e₅, r₅) = >>=-ok (wrapping "sign: %w" (lift _)) _ _ r₄ in
      let (_, e₆, r₆) =
        >>=-ok (wrapping "broadcast: %w" (send_transaction net ctx p.submit_client signed)) _ _
          r₅ in
      record {
        input = input;
        packed = wrapping-ok _ (lift (pack_mine lib p.abi q.nonce)) _ e₁;
        tx = mine_tx fl net lib p q input fees.0 fees.1 estimate nonce;
        signed = signed;
        signs = wrapping-ok _ (lift _) _ e₅;
        hash = sym (ok-injective r₆);
        tx_input = refl;
        tx_to = refl;
        tx_value = refl;
        tx_gas_floor = (gas_limit_bounds fl p.safety_mult p.min_gas p.max_gas estimate lim).0;
        tx_gas_ceiling = (gas_limit_bounds fl p.safety_mult p.min_gas p.max_gas estimate lim).1;
        base = fees.0;
        suggested = fees.1;
        at_fees = _;
        fees = wrapping-ok _ (suggest_fees net ctx p.client) _ e₂;
        tx_tip = le-priority_wei fl q.tip_cap_gwei q.bump_factor fees.1;
        tx_fee = refl;
        at_nonce = _;
        tx_nonce = wrapping-ok _ (nonce_at net ctx p.client q.from true) _ e₄;
        at_send = _;
        sent = wrapping-ok _ (send_transaction net ctx p.submit_client signed) _ e₆;
      }
