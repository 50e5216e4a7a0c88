-- ===== src/Orchestrator/Stats/Totals.antt =====
-- internal/orchestrator/engine.go: the sums of `logHashrate`.
use hash256_miner.Base.{ℕ, ◌+◌, ◌%◌, ◌^◌, ◌≡◌, refl, arith, List, [], ◌∷◌}
use hash256_miner.Orchestrator.Engine.{WorkerSlot}
use hash256_miner.Orchestrator.Stats.{totals_from}

wraps : (a r : ℕ) → (a % 2 ^ 64 + r) % 2 ^ 64 ≡ (a + r) % 2 ^ 64
wraps a r = omega arith

adds : (a r t : ℕ) → a + (r + t) ≡ (a + r) + t
adds a r t = omega arith

module _ {Address Key : Type 0} where
  pub sum_rates : List (WorkerSlot Address Key) → ℕ
  sum_rates [] = 0
  sum_rates (slot ∷ slots) = slot.last_hashrate + sum_rates slots

  pub sum_hashes : List (WorkerSlot Address Key) → ℕ
  sum_hashes [] = 0
  sum_hashes (slot ∷ slots) = slot.last_hashes + sum_hashes slots

  totals_from_lem :
      (a b : ℕ) (slots : List (WorkerSlot Address Key))
      → totals_from (a % 2 ^ 64, b % 2 ^ 64) slots
        ≡ ((a + sum_rates slots) % 2 ^ 64, (b + sum_hashes slots) % 2 ^ 64)
  unfolding totals_from sum_rates sum_hashes
  totals_from_lem a b [] =
      let ea : a + 0 ≡ a = omega arith in let eb : b + 0 ≡ b = omega arith in rw (ea, eb) refl
  totals_from_lem a b (slot ∷ slots) =
      rw
        (
          wraps a slot.last_hashrate,
          wraps b slot.last_hashes,
          adds a slot.last_hashrate (sum_rates slots),
          adds b slot.last_hashes (sum_hashes slots),
        )
        (totals_from_lem (a + slot.last_hashrate) (b + slot.last_hashes) slots)

  -- The totals of `logHashrate` are the sums over the workers, modulo 2 ^ 64.
  pub totals_from-sum :
      (slots : List (WorkerSlot Address Key))
      → totals_from (0, 0) slots ≡ (sum_rates slots % 2 ^ 64, sum_hashes slots % 2 ^ 64)
  totals_from-sum slots =
      let ea : 0 + sum_rates slots ≡ sum_rates slots = omega arith in
      let eb : 0 + sum_hashes slots ≡ sum_hashes slots = omega arith in
      rw (ea, eb) at (totals_from_lem 0 0 slots)
