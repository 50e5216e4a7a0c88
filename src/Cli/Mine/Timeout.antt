-- ===== src/Cli/Mine/Timeout.antt =====
-- internal/cli/mine.go: the timeout of the submit client.
use hash256_miner.Base.{
  ℕ, ◌≡◌, ◌≤◌, ◌<◌, ◌*◌, ◌%◌, ◌^◌, refl, arith, ltb, Bool-cases, inl, inr, pos, if◌then◌else◌,
}
use hash256_miner.Std.Duration.{milliseconds, is_shorter, seconds_10, bits_of, of_bits}
use hash256_miner.Config.{Config}
use hash256_miner.Cli.Machine.{Machine}
use hash256_miner.Cli.Mine.{submit_timeout}

-- A duration of 64 bits that is not short has its value, and fits 63 bits.
at_least :
    (b : ℕ)
    → (n : ℕ) × ((if is_shorter (of_bits b) seconds_10 then pos seconds_10 else of_bits b) ≡ pos n)
      × (seconds_10 ≤ n)
      × (n < 2 ^ 63)
unfolding is_shorter of_bits
at_least b = elim (Bool-cases (ltb b (2 ^ 63))) [
  | inl fits ↦ rw fits (elim (Bool-cases (ltb b seconds_10)) [
    | inl short ↦ rw short (seconds_10, refl, omega arith, omega arith)
    | inr long ↦ rw long (b, refl, ground arith, ground arith)
  ])
  | inr wraps ↦ rw wraps (seconds_10, refl, omega arith, omega arith)
]

module _ (m : Machine) where
  -- The timeout of the submit client is positive, at least ten seconds, whatever milliseconds are configured.
  pub submit_timeout_bounds :
      (cfg : Config m.env.fl.F)
      → (n : ℕ) × (submit_timeout m cfg ≡ pos n) × (seconds_10 ≤ n) × (n < 2 ^ 63)
  unfolding submit_timeout milliseconds
  submit_timeout_bounds cfg = at_least (bits_of cfg.rpc.request_timeout_ms * 1000000 % 2 ^ 64)
