-- ===== src/Std.antt =====
-- The parts of Go's standard library that the program computes with: hexadecimal text and big-endian
-- bytes of `big.Int`, and `copy`.
pub mod Hex
pub mod BigInt
pub mod Slice
pub mod Float64
pub mod Bits
pub mod Decimal
pub mod Duration
