-- ===== src/Std/Hex.antt =====
-- `encoding/hex`: `EncodeToString` and `DecodeString`.
use hash256_miner.Base.{
  ℕ, ◌+◌, ◌-◌, ◌*◌, ◌/◌, ◌%◌, ◌<◌, ◌≡◌, refl, arith, ◌&&◌, [], ◌∷◌, Option, none, some, Bytes, ltb,
  leb, if◌then◌else◌, Result, ok, err, panic, foreign, All, length, ap,
}

-- A digit of a nibble.
unfoldable pub hex_digit : ℕ → ℕ
hex_digit d = if ltb d 10 then b'0' + d else b'a' + (d - 10)

pub hex_encode : Bytes → Bytes
unfolding hex_digit
hex_encode [] = []
hex_encode (c ∷ s) = hex_digit (c / 16) ∷ hex_digit (c % 16) ∷ hex_encode s

-- The nibble of a digit, of either case.
unfoldable pub from_hex : ℕ → Option ℕ
from_hex c =
    if leb b'0' c && leb c b'9'
    then some (c - b'0')
    else if leb b'a' c && leb c b'f'
    then some (c - b'a' + 10)
    else if leb b'A' c && leb c b'F'
    then some (c - b'A' + 10)
    else none

pub invalid_byte : Result Bytes
invalid_byte = err (foreign "encoding/hex: invalid byte")

-- Puts a byte in front of what was decoded.
abbrev pub cons_byte : Option ℕ → Option ℕ → Result Bytes → Result Bytes
cons_byte (some a) (some b) (ok s) = ok ((a * 16 + b) ∷ s)
cons_byte (some a) (some b) (err e) = err e
cons_byte (some a) (some b) (panic s) = panic s
cons_byte (some a) none r = err (foreign "encoding/hex: invalid byte")
cons_byte none b r = err (foreign "encoding/hex: invalid byte")

abbrev odd_byte : Option ℕ → Result Bytes
odd_byte (some a) = err (foreign "encoding/hex: odd length hex string")
odd_byte none = err (foreign "encoding/hex: invalid byte")

unfoldable pub hex_decode : Bytes → Result Bytes
unfolding from_hex
hex_decode [] = ok []
hex_decode (a ∷ []) = odd_byte (from_hex a)
hex_decode (a ∷ b ∷ s) = cons_byte (from_hex a) (from_hex b) (hex_decode s)

abbrev pub IsByte : ℕ → Type 0
IsByte c = c < 256

from_hex-hex_digit : (d : ℕ) → d < 16 → from_hex (hex_digit d) ≡ some d
unfolding from_hex hex_digit
from_hex-hex_digit d h = ground arith

hex_decode_step :
    (a b : ℕ) (s : Bytes)
    → hex_decode (a ∷ b ∷ s) ≡ cons_byte (from_hex a) (from_hex b) (hex_decode s)
unfolding hex_decode
hex_decode_step a b s = refl

hex_decode-nil : hex_decode [] ≡ ok []
unfolding hex_decode
hex_decode-nil = refl

-- Decoding undoes encoding, for every byte slice.
pub hex_decode-hex_encode : (s : Bytes) → All IsByte s → hex_decode (hex_encode s) ≡ ok s
unfolding hex_encode
hex_decode-hex_encode [] h = hex_decode-nil
hex_decode-hex_encode (c ∷ s) (hc, hs) =
    rw
      (
        hex_decode_step,
        from_hex-hex_digit (c / 16) (omega arith),
        from_hex-hex_digit (c % 16) (omega arith),
        hex_decode-hex_encode s hs,
      )
      (ap (λ b. ok (b ∷ s)) (omega arith))

pub length-hex_encode : (s : Bytes) → length (hex_encode s) ≡ length s * 2
unfolding hex_encode
length-hex_encode [] = refl
length-hex_encode (c ∷ s) = omega (arith, length-hex_encode s)

from_hex-lt : (c : ℕ) {d : ℕ} → from_hex c ≡ some d → d < 16
unfolding from_hex
from_hex-lt c h = ground arith

cons_byte_ok :
    (oa ob : Option ℕ) (r : Result Bytes) {t : Bytes}
    → cons_byte oa ob r ≡ ok t
    → (a b : ℕ) × (s : Bytes) × (oa ≡ some a) × (ob ≡ some b) × (r ≡ ok s) × (t ≡ (a * 16 + b) ∷ s)
cons_byte_ok (some a) (some b) (ok s) h = (a, b, s, refl, refl, refl, cc)
cons_byte_ok (some a) (some b) (err e) h = cc
cons_byte_ok (some a) (some b) (panic s) h = cc
cons_byte_ok (some a) none r h = cc
cons_byte_ok none b r h = cc

-- What is decoded is bytes, half as many as the digits.
pub hex_decode_sound :
    (s : Bytes) {t : Bytes} → hex_decode s ≡ ok t → All IsByte t × (length s ≡ length t * 2)
unfolding hex_decode
hex_decode_sound [] {t} h = ground arith
hex_decode_sound (a ∷ []) {t} h = ground arith
hex_decode_sound (a ∷ b ∷ s) {t} h =
    let (x, y, s', ex, ey, es, et) = cons_byte_ok (from_hex a) (from_hex b) (hex_decode s) h in
    let (bytes, len) = hex_decode_sound s es in
    rw et ((omega (arith, from_hex-lt a ex, from_hex-lt b ey), bytes), omega (arith, len))
