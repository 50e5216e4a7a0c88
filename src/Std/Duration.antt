-- ===== src/Std/Duration.antt =====
-- `time.Duration`, an int64 of nanoseconds, whose products wrap.
use hash256_miner.Base.{ℕ, ◌-◌, ◌*◌, ◌%◌, ◌^◌, Bool, true, ltb, if◌then◌else◌, ℤ, pos, negsuc}

-- The 64 bits of an integer in two's complement, and the integer of 64 bits.
pub bits_of : ℤ → ℕ
bits_of (pos n) = n % 2 ^ 64
bits_of (negsuc n) = 2 ^ 64 - 1 - n % 2 ^ 64

unfoldable pub of_bits : ℕ → ℤ
of_bits b = if ltb b (2 ^ 63) then pos b else negsuc (2 ^ 64 - 1 - b)

-- `time.Duration(ms) * time.Millisecond`
unfoldable pub milliseconds : ℤ → ℤ
unfolding bits_of of_bits
milliseconds ms = of_bits (bits_of ms * 1000000 % 2 ^ 64)

abbrev pub seconds_10 : ℕ
seconds_10 = 10000000000

-- `t < d` for a duration `d` that is not negative.
unfoldable pub is_shorter : ℤ → ℕ → Bool
is_shorter (pos t) d = ltb t d
is_shorter (negsuc t) d = true
