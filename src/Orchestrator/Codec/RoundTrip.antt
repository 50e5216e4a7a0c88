-- ===== src/Orchestrator/Codec/RoundTrip.antt =====
-- internal/orchestrator/helpers.go: reading the texts of difficulties and challenges back.
use hash256_miner.Base.{
  ℕ, zero, suc, ◌+◌, ◌-◌, ◌*◌, ◌%◌, ◌^◌, ◌≤◌, ◌<◌, ◌≡◌, refl, arith, ◌++◌, some, Bytes, codes,
  length, drop, take, replicate, ok, All, All-drop, All-append, All-replicate, length-drop,
  length-append, length-replicate, trim_0x, take-append-drop, ap, sym, ◌∙◌, inl, inr, Bool-cases,
  ltb,
}
use native.Mathlib.Nat.{le_trans, pow-le-pow_right}
use hash256_miner.Std.Hex.{IsByte, hex_encode, hex_decode, hex_decode-hex_encode, length-hex_encode}
use hash256_miner.Std.BigInt.{
  big_bytes, set_bytes, set_bytes_from, set_bytes-big_bytes, big_bytes-IsByte, set_bytes_from-split,
  set_bytes_from-append, set_bytes_from-lt,
}
use hash256_miner.Std.Slice.{copy_at_end}
use hash256_miner.Orchestrator.Codec.{last_32, difficulty_to_hex32, challenge_to_hex32}

length-last_32 : (b : Bytes) → length (last_32 b) ≤ 32
unfolding last_32
length-last_32 b = ground (arith, length-drop {0} (length b - 32) b)

last_32-IsByte : (b : Bytes) → All IsByte b → All IsByte (last_32 b)
unfolding last_32
last_32-IsByte b h = ground (arith, All-drop IsByte (length b - 32) b h)

short_value : (b : Bytes) → All IsByte b → length b ≤ 32 → set_bytes b < 2 ^ 256
unfolding set_bytes
short_value b h short =
    le_trans (set_bytes_from-lt b h) (pow-le-pow_right {n = 256} (omega arith) {j = 32} short)

long_value :
    (b : Bytes)
    → All IsByte b
    → 32 ≤ length b
    → set_bytes b
      ≡ set_bytes (take (length b - 32) b) * 2 ^ 256 + set_bytes (drop (length b - 32) b)
unfolding set_bytes
long_value b h long =
    let front = take (length b - 32) b in
    let back = drop (length b - 32) b in
    let len : length back ≡ 32 = omega (arith, length-drop {0} (length b - 32) b) in
    ap (λ s. set_bytes_from 0 s) (sym (take-append-drop (length b - 32) b))
    ∙ set_bytes_from-append 0 front back
    ∙ set_bytes_from-split (set_bytes_from 0 front) back
    ∙ ap (λ n. set_bytes_from 0 front * 256 ^ n + set_bytes_from 0 back) len

-- The last 32 of more bytes are less than 2 ^ 256.
back_value :
    (b : Bytes) → All IsByte b → 32 ≤ length b → set_bytes (drop (length b - 32) b) < 2 ^ 256
back_value b h long =
    short_value (drop (length b - 32) b) (All-drop IsByte (length b - 32) b h)
      (omega (arith, length-drop {0} (length b - 32) b))

-- Bytes in front of the last 32 count in multiples of 2 ^ 256.
last_32_value : (b : Bytes) → All IsByte b → set_bytes (last_32 b) ≡ set_bytes b % 2 ^ 256
unfolding last_32
last_32_value b h = elim (Bool-cases (ltb 32 (length b))) [
  | inl long ↦ rw long (ground (arith, long_value b h, back_value b h))
  | inr short ↦ rw short (ground (arith, short_value b h))
]

zeros_value : (n : ℕ) (b : Bytes) → set_bytes (replicate n 0 ++ b) ≡ set_bytes b
unfolding set_bytes
zeros_value zero b = refl
zeros_value (suc n) b = zeros_value n b

-- The 32 bytes that are written out.
padded : ℕ → Bytes
padded v = replicate (32 - length (last_32 (big_bytes v))) 0 ++ last_32 (big_bytes v)

difficulty-padded : (v : ℕ) → difficulty_to_hex32 (some v) ≡ codes "0x" ++ hex_encode (padded v)
unfolding difficulty_to_hex32 padded
difficulty-padded v =
    ap (λ p. codes "0x" ++ hex_encode p)
      (copy_at_end 32 (last_32 (big_bytes v)) (length-last_32 (big_bytes v)))

padded-IsByte : (v : ℕ) → All IsByte (padded v)
unfolding padded
padded-IsByte v =
    All-append IsByte (replicate _ 0) (last_32 (big_bytes v))
      (All-replicate IsByte (32 - length (last_32 (big_bytes v))) 0 (omega arith))
      (last_32-IsByte (big_bytes v) (big_bytes-IsByte v))

length-padded : (v : ℕ) → length (padded v) ≡ 32
unfolding padded
length-padded v = omega (
  arith,
  length-append {0} (replicate (32 - length (last_32 (big_bytes v))) 0) (last_32 (big_bytes v)),
  length-replicate {0} {A = ℕ} (32 - length (last_32 (big_bytes v))) 0,
  length-last_32 (big_bytes v),
)

padded_value : (v : ℕ) → set_bytes (padded v) ≡ v % 2 ^ 256
unfolding padded
padded_value v =
    zeros_value (32 - length (last_32 (big_bytes v))) (last_32 (big_bytes v))
    ∙ last_32_value (big_bytes v) (big_bytes-IsByte v)
    ∙ ap (λ n. n % 2 ^ 256) (set_bytes-big_bytes v)

-- The hexadecimal text of a difficulty is `0x` and 64 digits, and its digits decode to 32 bytes
-- that spell the difficulty modulo 2 ^ 256.
pub difficulty_to_hex32_sound :
    (v : ℕ)
    → (length (difficulty_to_hex32 (some v)) ≡ 66)
      × ((b : Bytes) × (hex_decode (trim_0x (difficulty_to_hex32 (some v))) ≡ ok b)
          × (length b ≡ 32)
          × (set_bytes b ≡ v % 2 ^ 256))
unfolding trim_0x
difficulty_to_hex32_sound v = rw (difficulty-padded v) (
  omega (arith, length-hex_encode (padded v), length-padded v),
  (padded v, hex_decode-hex_encode (padded v) (padded-IsByte v), length-padded v, padded_value v),
)

-- The text of a challenge of bytes decodes to that challenge.
pub challenge_to_hex32_sound :
    (c : Bytes) → All IsByte c → hex_decode (trim_0x (challenge_to_hex32 c)) ≡ ok c
unfolding challenge_to_hex32 trim_0x
challenge_to_hex32_sound c h = hex_decode-hex_encode c h
