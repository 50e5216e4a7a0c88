-- ===== src/Config/Defaults.antt =====
-- internal/config/config.go: the configurations that `applyDefaults` accepts.
use hash256_miner.Base.{ℕ, ◌≡◌, ◌≢◌, refl, arith, true, false, [], ◌∷◌, Bytes, ok, ℤ, pos}
use hash256_miner.Std.Float64.{Float64}
use hash256_miner.Config.{
  Config, or_text, or_number, or_int, or_float, is_miner_mode, is_wallet_mode, is_empty, defaulted,
  apply_defaults,
}

-- Every setting has a value, and the enumerated ones a known value.
pub record IsComplete (fl : Float64) (c : Config fl.F) : Type 0 where
  pub miner_mode : is_miner_mode c.miner.mode ≡ true
  pub data_dir : c.miner.data_dir ≢ []
  pub batch_size : c.miner.batch_size ≢ 0
  pub endpoints : c.rpc.endpoints ≢ []
  pub chain_id : c.rpc.chain_id ≢ pos 0
  pub request_timeout : c.rpc.request_timeout_ms ≢ pos 0
  pub address : c.contract.address ≢ []
  pub wallet_mode : is_wallet_mode c.wallet.mode ≡ true
  pub accounts : c.wallet.accounts ≢ pos 0
  pub poll_interval : c.mining.poll_interval_ms ≢ pos 0
  pub stand_by : c.mining.stand_by_poll_interval_ms ≢ pos 0
  pub strategy : c.mining.submit_strategy ≢ []
  pub gas_floor : c.mining.gas_limit_floor ≢ 0
  pub gas_ceiling : c.mining.gas_limit_ceiling ≢ 0
  pub tip_set : fl.feq c.mining.max_priority_fee_gwei (fl.literal 0 1) ≡ false
  pub bump_set : fl.feq c.mining.priority_fee_bump_near_cap (fl.literal 0 1) ≡ false
  pub mult_set : fl.feq c.mining.gas_limit_safety_mult (fl.literal 0 1) ≡ false

-- The constants 3.0, 2.5 and 1.5 are not zero.
pub record ConstantsNonzero (fl : Float64) : Type 0 where
  pub three : fl.feq (fl.literal 30 10) (fl.literal 0 1) ≡ false
  pub two_and_half : fl.feq (fl.literal 25 10) (fl.literal 0 1) ≡ false
  pub one_and_half : fl.feq (fl.literal 15 10) (fl.literal 0 1) ≡ false

or_text_idem : (s : Bytes) (d : Bytes) → or_text (or_text s d) d ≡ or_text s d
unfolding or_text
or_text_idem [] d = ground arith
or_text_idem (x ∷ xs) d = refl

or_int_idem : (n : ℤ) (d : ℕ) → or_int (or_int n d) d ≡ or_int n d
unfolding or_int
or_int_idem n d = ground arith

or_number_idem : (n d : ℕ) → or_number (or_number n d) d ≡ or_number n d
unfolding or_number
or_number_idem n d = ground arith

module _ (fl : Float64) where
  open fl use {F, feq, literal}

  or_float_idem :
      (x d : F) → feq d (literal 0 1) ≡ false → or_float fl (or_float fl x d) d ≡ or_float fl x d
  unfolding or_float
  or_float_idem x d h = ground arith

  -- A configuration that is accepted passed the three checks, with its defaults in place.
  pub accepted :
      (c : Config F) {c' : Config F}
      → apply_defaults fl c ≡ ok c'
      → (c' ≡ defaulted fl c)
        × (is_miner_mode (defaulted fl c).miner.mode ≡ true)
        × (is_empty (defaulted fl c).rpc.endpoints ≡ false)
        × (is_wallet_mode (defaulted fl c).wallet.mode ≡ true)
  unfolding apply_defaults
  accepted c h = ground arith

  accepted_again :
      (c : Config F)
      → defaulted fl c ≡ c
      → is_miner_mode c.miner.mode ≡ true
      → is_empty c.rpc.endpoints ≡ false
      → is_wallet_mode c.wallet.mode ≡ true
      → apply_defaults fl c ≡ ok c
  unfolding apply_defaults
  accepted_again c d m p w = rw (d, m, p, w)

  defaulted_idem :
      (c : Config F) → ConstantsNonzero fl → defaulted fl (defaulted fl c) ≡ defaulted fl c
  unfolding defaulted
  defaulted_idem c nz = simp (
    or_text_idem,
    or_int_idem,
    or_number_idem,
    or_float_idem _ _ nz.three,
    or_float_idem _ _ nz.two_and_half,
    or_float_idem _ _ nz.one_and_half,
  )

module _ (fl : Float64) (nz : ConstantsNonzero fl) where
  -- `applyDefaults` accepts what it returned, and changes nothing in it. The float constants of the
  -- defaults must not compare equal to zero.
  apply_defaults_idem :
      (c : Config fl.F) {c' : Config fl.F}
      → apply_defaults fl c ≡ ok c'
      → apply_defaults fl c' ≡ ok c'
  apply_defaults_idem c {c'} h =
      let (e, m, p, w) = accepted fl c h in
      rw e (accepted_again fl (defaulted fl c) (defaulted_idem fl c nz) m p w)
