-- ===== src/Std/BigInt.antt =====
-- `math/big`: the big-endian bytes of a non-negative `big.Int`, and back.
use hash256_miner.Base.{
  ℕ, zero, suc, ◌+◌, ◌*◌, ◌/◌, ◌%◌, ◌^◌, ◌≤◌, ◌<◌, ◌≡◌, refl, arith, true, false, [], ◌∷◌, ◌++◌,
  Bytes, ◌==◌, All, length,
}
use native.Mathlib.Nat.{pow-suc}
use hash256_miner.Std.Hex.{IsByte}

-- With fuel: a round for each byte of `n`, and `n` is fuel enough.
big_bytes_from : ℕ → ℕ → Bytes → Bytes
big_bytes_from zero n out = out
big_bytes_from (suc f) n out = elim (n == 0) [
  | true ↦ out
  | false ↦ big_bytes_from f (n / 256) ((n % 256) ∷ out)
]

-- `(*big.Int).Bytes`.
pub big_bytes : ℕ → Bytes
unfolding big_bytes_from
big_bytes n = big_bytes_from n n []

pub set_bytes_from : ℕ → Bytes → ℕ
set_bytes_from n [] = n
set_bytes_from n (c ∷ s) = set_bytes_from (n * 256 + c) s

-- `(*big.Int).SetBytes`.
unfoldable pub set_bytes : Bytes → ℕ
unfolding set_bytes_from
set_bytes s = set_bytes_from 0 s

set_bytes-big_bytes_from :
    (f n : ℕ) (out : Bytes)
    → n ≤ f
    → set_bytes_from 0 (big_bytes_from f n out) ≡ set_bytes_from n out
unfolding big_bytes_from set_bytes_from
set_bytes-big_bytes_from zero n out h = ground arith
set_bytes-big_bytes_from (suc f) n out h =
    ground (arith, set_bytes-big_bytes_from f (n / 256) ((n % 256) ∷ out))

-- The bytes of a number spell it.
pub set_bytes-big_bytes : (n : ℕ) → set_bytes (big_bytes n) ≡ n
unfolding set_bytes big_bytes
set_bytes-big_bytes n = set_bytes-big_bytes_from n n [] (omega arith)

big_bytes_from-IsByte :
    (f n : ℕ) (out : Bytes) → All IsByte out → All IsByte (big_bytes_from f n out)
unfolding big_bytes_from
big_bytes_from-IsByte zero n out h = h
big_bytes_from-IsByte (suc f) n out h =
    ground (arith, big_bytes_from-IsByte f (n / 256) ((n % 256) ∷ out))

pub big_bytes-IsByte : (n : ℕ) → All IsByte (big_bytes n)
unfolding big_bytes
big_bytes-IsByte n = big_bytes_from-IsByte n n [] tt

-- A digit string is its head, shifted, and its tail.
pub set_bytes_from-split :
    (n : ℕ) (s : Bytes) → set_bytes_from n s ≡ n * 256 ^ length s + set_bytes_from 0 s
unfolding set_bytes_from
set_bytes_from-split n [] = omega arith
set_bytes_from-split n (c ∷ s) =
    rw
      (set_bytes_from-split (n * 256 + c) s, set_bytes_from-split (0 + c) s, pow-suc 256 (length s))
      (omega arith)

pub set_bytes_from-append :
    (n : ℕ) (s t : Bytes) → set_bytes_from n (s ++ t) ≡ set_bytes_from (set_bytes_from n s) t
unfolding set_bytes_from
set_bytes_from-append n [] t = refl
set_bytes_from-append n (c ∷ s) t = set_bytes_from-append (n * 256 + c) s t

pub set_bytes_from-lt : (s : Bytes) → All IsByte s → set_bytes_from 0 s < 256 ^ length s
unfolding set_bytes_from
set_bytes_from-lt [] h = omega arith
set_bytes_from-lt (c ∷ s) (hc, hs) =
    grind (arith, pow-suc 256 (length s), set_bytes_from-split (0 + c) s, set_bytes_from-lt s hs)
