-- ===== src/Std/Slice.antt =====
-- `copy(dst[off:], src)`: as many bytes as fit, and the others stay.
use hash256_miner.Base.{
  ℕ, ◌+◌, ◌-◌, ◌≤◌, ◌≡◌, arith, ◌++◌, Bytes, length, take, drop, replicate, append-nil,
  take_of_length-le, drop_of_length-le, take-replicate, length-replicate,
}

unfoldable pub copy_at : Bytes → ℕ → Bytes → Bytes
copy_at dst off src = take off dst ++ (take (length dst - off) src ++ drop (off + length src) dst)

-- A copy to the right end of a zeroed buffer.
pub copy_at_end :
    (n : ℕ) (s : Bytes)
    → length s ≤ n
    → copy_at (replicate n 0) (n - length s) s ≡ replicate (n - length s) 0 ++ s
unfolding copy_at
copy_at_end n s h =
    rw
      (
        take-replicate {A = ℕ} (n - length s) n 0 (omega arith),
        length-replicate {A = ℕ} n 0,
        take_of_length-le (n - (n - length s)) s (omega arith),
        drop_of_length-le {A = ℕ} (n - length s + length s) (replicate n 0)
            (omega (arith, length-replicate {0} {A = ℕ} n 0)),
      )
      (rw append-nil)
