-- ===== src/Orchestrator/Codec.antt =====
-- internal/orchestrator/helpers.go: the 32-byte hexadecimal texts of the worker protocol.
pub mod RoundTrip
use hash256_miner.Base.{
  ℕ, ◌-◌, ◌++◌, Option, none, some, Bytes, codes, ltb, if◌then◌else◌, length, drop, replicate, Exec,
  ◌>>=◌, pure, wrapping,
}
use hash256_miner.Std.Hex.{hex_encode}
use hash256_miner.Std.BigInt.{big_bytes}
use hash256_miner.Std.Slice.{copy_at}

pub hex_zeros : ℕ → Bytes
hex_zeros n = replicate n b'0'

-- `b = b[len(b)-32:]` when there are more than 32 bytes.
pub last_32 : Bytes → Bytes
last_32 b = if ltb 32 (length b) then drop (length b - 32) b else b

-- A nil pointer is `none`.
pub difficulty_to_hex32 : Option ℕ → Bytes
unfolding hex_zeros last_32
difficulty_to_hex32 none = codes "0x" ++ hex_zeros 64
difficulty_to_hex32 (some v) =
    let b = last_32 (big_bytes v) in
    codes "0x" ++ hex_encode (copy_at (replicate 32 0) (32 - length b) b)

-- The challenge is a `[32]byte`.
unfoldable pub challenge_to_hex32 : Bytes → Bytes
challenge_to_hex32 c = codes "0x" ++ hex_encode c

-- `read n` is `crypto/rand.Read` into a buffer of `n` bytes.
unfoldable pub random_prefix24_hex : {W : Type 0} → (ℕ → Exec W Bytes) → Exec W Bytes
random_prefix24_hex read = do
  buf ← wrapping "rand: %w" (read 24)
  pure (codes "0x" ++ hex_encode buf)
