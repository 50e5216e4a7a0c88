-- ===== src/Std/Decimal.antt =====
-- `%d` of a non-negative number.
use hash256_miner.Base.{
  ℕ, zero, suc, ◌+◌, ◌/◌, ◌%◌, true, false, [], ◌∷◌, Bytes, ◌==◌, if◌then◌else◌,
}

digits_from : ℕ → ℕ → Bytes → Bytes
digits_from zero n out = out
digits_from (suc f) n out = elim (n == 0) [
  | true ↦ out
  | false ↦ digits_from f (n / 10) ((b'0' + n % 10) ∷ out)
]

pub decimal : ℕ → Bytes
unfolding digits_from
decimal n = if n == 0 then b'0' ∷ [] else digits_from n n []
