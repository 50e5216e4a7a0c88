-- ===== src/Std/Bits.antt =====
-- `^` and `|` of unsigned numbers: the equation for the lowest digit, and what follows at all sizes.
use Prim.Native.Nat.{
  digits, differ, max, min, bit_and, bit_and-bitwise, bit_or-bitwise, bit_xor-bitwise,
}
use native.Mathlib.Nat.{pow-suc}
use mathlib.Core.WellFounded.{Acc, WellFounded, induction}
use hash256_miner.Base.{
  ℕ, zero, suc, ◌+◌, ◌*◌, ◌/◌, ◌%◌, ◌^◌, ◌≤◌, ◌<◌, ◌≡◌, refl, sym, ◌∙◌, arith, bit_or, bit_xor,
}

lt_acc : (k n : ℕ) → n < k → Acc ◌<◌ n
lt_acc zero n h = elim h [ ]
lt_acc (suc k) n h = Acc.intro n (λ m below. lt_acc k m (omega arith))

lt_wf : WellFounded ◌<◌
lt_wf = record { apply = λ n. lt_acc (suc n) n (omega arith) }

-- Fuel beyond the left operand makes no difference.
enough : (z : ℕ → ℕ) (f : ℕ → ℕ → ℕ) (k a b : ℕ) → a ≤ k → digits z f k a b ≡ digits z f a a b
enough z f k = all k k (omega arith)
  where
    all : (n k : ℕ) → k ≤ n → (a b : ℕ) → a ≤ k → digits z f k a b ≡ digits z f a a b
    all n zero h zero b le = refl
    all n zero h (suc a) b le = absurd (omega arith)
    all n (suc k) h zero b le = refl
    all zero (suc k) h (suc a) b le = absurd (omega arith)
    all (suc n) (suc k) h (suc a) b le = rw (
      all n k (omega arith) (suc a / 2) (b / 2) (omega arith),
      all n a (omega arith) (suc a / 2) (b / 2) (omega arith),
    )

pub low_bit_xor : (x y : ℕ) → bit_xor x y ≡ differ (x % 2) (y % 2) + bit_xor (x / 2) (y / 2) * 2
low_bit_xor zero y = simp bit_xor-bitwise (omega arith)
low_bit_xor (suc x) y =
    simp bit_xor-bitwise (omega (arith, enough (λ y. y) differ x (suc x / 2) (y / 2) (omega arith)))

pub low_bit_or : (x y : ℕ) → bit_or x y ≡ max (x % 2) (y % 2) + bit_or (x / 2) (y / 2) * 2
low_bit_or zero y = simp bit_or-bitwise (omega arith)
low_bit_or (suc x) y =
    simp bit_or-bitwise (omega (arith, enough (λ y. y) max x (suc x / 2) (y / 2) (omega arith)))

differ_zero : (x y : ℕ) → differ x y ≡ 0 → x ≡ y
differ_zero zero y h = sym h
differ_zero (suc x) zero h = h
differ_zero (suc x) (suc y) h = omega (arith, differ_zero x y h)

differ_self : (x : ℕ) → differ x x ≡ 0
differ_self zero = refl
differ_self (suc x) = differ_self x

differ_lt : (x y : ℕ) → x < 2 → y < 2 → differ x y < 2
differ_lt zero y hx hy = hy
differ_lt (suc x) zero hx hy = hx
differ_lt (suc x) (suc y) hx hy = differ_lt x y (omega arith) (omega arith)

differ_again : (x y : ℕ) → x < 2 → y < 2 → differ (differ x y) y ≡ x
differ_again zero y hx hy = differ_self y
differ_again (suc zero) zero hx hy = refl
differ_again (suc zero) (suc zero) hx hy = refl
differ_again (suc zero) (suc (suc y)) hx hy = absurd (omega arith)
differ_again (suc (suc x)) y hx hy = absurd (omega arith)

zero-bit_xor : (b : ℕ) → bit_xor 0 b ≡ b
zero-bit_xor b = bit_xor-bitwise 0 b

pub zero-bit_or : (b : ℕ) → bit_or 0 b ≡ b
zero-bit_or b = bit_or-bitwise 0 b

pub bit_xor_self : (a : ℕ) → bit_xor a a ≡ 0
bit_xor_self a = induction lt_wf {C = λ n. bit_xor n n ≡ 0} a λ n ih. step n ih
  where
    step : (n : ℕ) → ((m : ℕ) → m < n → bit_xor m m ≡ 0) → bit_xor n n ≡ 0
    step zero ih = refl
    step (suc n) ih =
        omega (
          arith,
          low_bit_xor (suc n) (suc n),
          differ_self (suc n % 2),
          ih (suc n / 2) (omega arith),
        )

-- Two numbers differ in no digit exactly if they are equal.
pub bit_xor-eq-zero : (a b : ℕ) → bit_xor a b ≡ 0 → a ≡ b
bit_xor-eq-zero a = induction lt_wf {C = λ n. (b : ℕ) → bit_xor n b ≡ 0 → n ≡ b} a λ n ih. step n ih
  where
    step :
        (n : ℕ)
        → ((m : ℕ) → m < n → (b : ℕ) → bit_xor m b ≡ 0 → m ≡ b)
        → (b : ℕ) → bit_xor n b ≡ 0
        → n ≡ b
    step zero ih b h = sym (sym (zero-bit_xor b) ∙ h)
    step (suc n) ih b h =
        let e = low_bit_xor (suc n) b in
        omega (
          arith,
          differ_zero (suc n % 2) (b % 2) (omega arith),
          ih (suc n / 2) (omega arith) (b / 2) (omega arith),
        )

pub bit_or-eq-zero : (a b : ℕ) → bit_or a b ≡ 0 → (a ≡ 0) × (b ≡ 0)
bit_or-eq-zero a =
    induction lt_wf {C = λ n. (b : ℕ) → bit_or n b ≡ 0 → (n ≡ 0) × (b ≡ 0)} a λ n ih. step n ih
  where
    step :
        (n : ℕ)
        → ((m : ℕ) → m < n → (b : ℕ) → bit_or m b ≡ 0 → (m ≡ 0) × (b ≡ 0))
        → (b : ℕ) → bit_or n b ≡ 0
        → (n ≡ 0) × (b ≡ 0)
    step zero ih b h = (refl, sym (zero-bit_or b) ∙ h)
    step (suc n) ih b h =
        let e = low_bit_or (suc n) b in
        let below = ih (suc n / 2) (omega arith) (b / 2) (omega arith) in (omega arith, omega arith)

-- The same mask twice changes nothing.
pub bit_xor_twice : (a k : ℕ) → bit_xor (bit_xor a k) k ≡ a
bit_xor_twice a =
    induction lt_wf {C = λ n. (k : ℕ) → bit_xor (bit_xor n k) k ≡ n} a λ n ih. step n ih
  where
    step :
        (n : ℕ)
        → ((m : ℕ) → m < n → (k : ℕ) → bit_xor (bit_xor m k) k ≡ m)
        → (k : ℕ) → bit_xor (bit_xor n k) k ≡ n
    step zero ih k = rw zero-bit_xor (bit_xor_self k)
    step (suc n) ih k =
        let c = bit_xor (suc n) k in
        let half = ih (suc n / 2) (omega arith) (k / 2) in
        let e = low_bit_xor (suc n) k in
        let small = differ_lt (suc n % 2) (k % 2) (omega arith) (omega arith) in
        let front : c / 2 ≡ bit_xor (suc n / 2) (k / 2) = omega arith in
        let last : c % 2 ≡ differ (suc n % 2) (k % 2) = omega arith in
        low_bit_xor c k
        ∙ rw (front, last, half, differ_again (suc n % 2) (k % 2) (omega arith) (omega arith))
            (omega arith)

-- The result has no more binary digits than the operands.
pub bit_xor-lt : (k a b : ℕ) → a < 2 ^ k → b < 2 ^ k → bit_xor a b < 2 ^ k
bit_xor-lt zero zero b ha hb = rw (zero-bit_xor b) hb
bit_xor-lt zero (suc a) b ha hb = absurd (omega arith)
bit_xor-lt (suc k) a b ha hb =
    let p = pow-suc 2 k in
    let digit = differ_lt (a % 2) (b % 2) (omega arith) (omega arith) in
    omega (arith, low_bit_xor a b, bit_xor-lt k (a / 2) (b / 2) (omega arith) (omega arith))

low_bit_and : (x y : ℕ) → bit_and x y ≡ min (x % 2) (y % 2) + bit_and (x / 2) (y / 2) * 2
low_bit_and zero y = simp bit_and-bitwise (omega arith)
low_bit_and (suc x) y =
    simp bit_and-bitwise (omega (arith, enough (λ y. 0) min x (suc x / 2) (y / 2) (omega arith)))

bit_and-zero : (k a : ℕ) → a ≤ k → bit_and a 0 ≡ 0
bit_and-zero k zero h = refl
bit_and-zero zero (suc a) h = absurd (omega arith)
bit_and-zero (suc k) (suc a) h =
    omega (arith, low_bit_and (suc a) 0, bit_and-zero k (suc a / 2) (omega arith))

-- `a & 0o077` keeps the six lowest bits.
pub bit_and_077 : (a : ℕ) → bit_and a 0o77 ≡ a % 64
bit_and_077 a = omega (
  arith,
  low_bit_and a 63,
  low_bit_and (a / 2) 31,
  low_bit_and (a / 2 / 2) 15,
  low_bit_and (a / 2 / 2 / 2) 7,
  low_bit_and (a / 2 / 2 / 2 / 2) 3,
  low_bit_and (a / 2 / 2 / 2 / 2 / 2) 1,
  bit_and-zero (a / 2 / 2 / 2 / 2 / 2 / 2) (a / 2 / 2 / 2 / 2 / 2 / 2) (omega arith),
)
