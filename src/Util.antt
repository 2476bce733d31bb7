-- ===== src/Util.antt =====
-- silkoroutine/common/base.hpp, util.hpp and util.cpp: byte strings and their hexadecimal text.
-- A `char` is its byte value; `size_t` sizes do not wrap.
pub mod Decode
pub mod RoundTrip
use Prim.Native.Nat.{bit_or}
use silkoroutine.Common.{
  ℕ, ◌+◌, ◌-◌, ◌*◌, ◌/◌, ◌%◌, ◌&&◌, ◌||◌, [], ◌∷◌, ◌++◌, Option, none, some, ◌≡◌, refl, Bytes,
  codes, leb, ◌==◌, if◌then◌else◌, length,
}

pub record KeyValue : Type 0 where
  pub key : Bytes
  pub value : Bytes

-- `ch - 'a' + 10` is computed in `int`, and is not negative where it is reached.
unfoldable pub decode_hex_digit : ℕ → Option ℕ
decode_hex_digit ch =
    if leb b'0' ch && leb ch b'9'
    then some (ch - b'0')
    else if leb b'a' ch && leb ch b'f'
    then some (ch - b'a' + 10)
    else if leb b'A' ch && leb ch b'F'
    then some (ch - b'A' + 10)
    else none

-- `hex.remove_prefix(2)` under its test.
abbrev pub remove_prefix : Bytes → Bytes
remove_prefix [] = []
remove_prefix (c ∷ []) = c ∷ []
remove_prefix (c ∷ d ∷ rest) = if c == b'0' && (d == b'x' || d == b'X') then rest else c ∷ d ∷ rest

-- The loop from index `i`, with the variables `carry` and `out`.
hex_loop : Bytes → ℕ → ℕ → Bytes → Option Bytes
hex_loop [] i carry out = some out
hex_loop (c ∷ hex) i carry out = elim (decode_hex_digit c) [
  | none ↦ none
  | some v ↦
      let even = i % 2 == 0 in
      hex_loop hex (i + 1) (if even then v * 16 else carry)
        (if even then out else out ++ (bit_or carry v % 256) ∷ [])
]

unfoldable pub from_hex : Bytes → Option Bytes
unfolding hex_loop decode_hex_digit
from_hex text =
    let hex = remove_prefix text in if length hex % 2 == 0 then hex_loop hex 0 0 [] else none

-- One digit that `std::hex` prints.
abbrev hex_digit : ℕ → ℕ
hex_digit n = if leb n 9 then b'0' + n else b'a' + (n - 10)

-- `operator<<`: two digits for each byte, by `setw(2)` and `setfill('0')`.
unfoldable pub write_hex : Bytes → Bytes
write_hex [] = []
write_hex (b ∷ bytes) = hex_digit (b / 16) ∷ hex_digit (b % 16) ∷ write_hex bytes

-- `Bytes(s.begin(), s.end())` and the view of the same bytes.
abbrev pub bytes_of_string : Bytes → Bytes
bytes_of_string s = s

abbrev pub byte_view_of_string : Bytes → Bytes
byte_view_of_string s = s

from_hex_runs : from_hex (codes "0xAb01") ≡ some (0xab ∷ 0x01 ∷ [])
unfolding from_hex
from_hex_runs = refl

write_hex_runs : write_hex (0xab ∷ 0x01 ∷ []) ≡ codes "ab01"
unfolding write_hex
write_hex_runs = refl
