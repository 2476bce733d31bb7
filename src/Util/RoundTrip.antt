-- ===== src/Util/RoundTrip.antt =====
-- Reading back what `operator<<` prints, and the shape of what `from_hex` returns.
use silkoroutine.Common.{
  ℕ, suc, ◌+◌, ◌*◌, ◌/◌, ◌%◌, ◌<◌, [], ◌∷◌, Option, none, some, ◌≡◌, refl, ◌∙◌, sym, Bytes, length,
  arith, All,
}
use silkoroutine.Util.{decode_hex_digit, remove_prefix, hex_digit, from_hex, write_hex}
use silkoroutine.Util.Decode.{◌>>=◌, decode_pairs, decode_hex_digit-lt, from_hex-pairs}

-- A `uint8_t`.
abbrev pub IsByte : ℕ → Type 0
IsByte b = b < 256

decode-hex_digit : (n : ℕ) → n < 16 → decode_hex_digit (hex_digit n) ≡ some n
unfolding decode_hex_digit
decode-hex_digit n h = ground arith

decode_pairs-write_hex :
    (bytes : Bytes) → All IsByte bytes → decode_pairs (write_hex bytes) ≡ some bytes
unfolding decode_pairs write_hex
decode_pairs-write_hex [] h = refl
decode_pairs-write_hex (b ∷ bytes) h =
    rw
      (
        decode-hex_digit (b / 16) (omega arith),
        decode-hex_digit (b % 16) (omega arith),
        decode_pairs-write_hex bytes h.1,
      )
      (ground arith)

-- A printed text has no `0x` in front, so nothing is dropped from it.
remove_prefix-write_hex : (bytes : Bytes) → remove_prefix (write_hex bytes) ≡ write_hex bytes
unfolding write_hex
remove_prefix-write_hex [] = refl
remove_prefix-write_hex (b ∷ bytes) = ground arith

-- Printing bytes in hexadecimal and reading the text back gives the same bytes, with or without
-- `0x` written in front of it.
pub from_hex-write_hex :
    (bytes : Bytes)
    → All IsByte bytes
    → (from_hex (write_hex bytes) ≡ some bytes)
      × (from_hex (b'0' ∷ b'x' ∷ write_hex bytes) ≡ some bytes)
from_hex-write_hex bytes h = (
  from_hex-pairs (write_hex bytes)
      ∙ rw (remove_prefix-write_hex bytes) (decode_pairs-write_hex bytes h),
  from_hex-pairs (b'0' ∷ b'x' ∷ write_hex bytes) ∙ decode_pairs-write_hex bytes h,
)

pairs_step :
    (x y : Option ℕ) (r : Option Bytes) (out : Bytes) (n : ℕ)
    → ((v : ℕ) → x ≡ some v → v < 16)
    → ((v : ℕ) → y ≡ some v → v < 16)
    → ((out' : Bytes) → r ≡ some out' → All IsByte out' × (n ≡ 2 * length out'))
    → (x >>= λ high. y >>= λ low. r >>= λ bytes. some ((high * 16 + low) ∷ bytes)) ≡ some out
    → All IsByte out × (suc (suc n) ≡ 2 * length out)
pairs_step none y r out n hx hy ih h = cc
pairs_step (some v) none r out n hx hy ih h = cc
pairs_step (some v) (some w) none out n hx hy ih h = cc
pairs_step (some v) (some w) (some bytes) out n hx hy ih h =
    ground (arith, h, hx v refl, hy w refl, ih bytes refl)

decode_pairs_shape :
    (hex out : Bytes) → decode_pairs hex ≡ some out → All IsByte out × (length hex ≡ 2 * length out)
unfolding decode_pairs
decode_pairs_shape [] out h = ground arith
decode_pairs_shape (a ∷ []) out h = cc
decode_pairs_shape (a ∷ b ∷ rest) out h =
    pairs_step (decode_hex_digit a) (decode_hex_digit b) (decode_pairs rest) out (length rest)
      (decode_hex_digit-lt a) (decode_hex_digit-lt b) (decode_pairs_shape rest) h

-- What `from_hex` returns are bytes, one for each two characters after the prefix, and reading the
-- text that they print as gives them again.
from_hex_shape :
    (text out : Bytes)
    → from_hex text ≡ some out
    → All IsByte out
      × (length (remove_prefix text) ≡ 2 * length out)
      × (from_hex (write_hex out) ≡ some out)
from_hex_shape text out h =
    let shape = decode_pairs_shape (remove_prefix text) out (sym (from_hex-pairs text) ∙ h) in
    (shape.0, shape.1, (from_hex-write_hex out shape.0).0)
