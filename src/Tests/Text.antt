-- ===== src/Tests/Text.antt =====
-- Runs of common/util.cpp and clock_time.cpp.
use silkoroutine.Common.{ℕ, ◌+◌, Bytes, [], ◌∷◌, some, none, ◌≡◌, refl, arith, codes}
use silkoroutine.Clock.{now, since, since-now}
use silkoroutine.Util.{from_hex, write_hex, remove_prefix}
use silkoroutine.Util.Decode.{decode_pairs, from_hex-pairs}
use silkoroutine.Util.RoundTrip.{from_hex-write_hex}

abbrev two_bytes : Bytes
two_bytes = 0xab ∷ 0x01 ∷ []

abbrev two_bytes_text : Bytes
two_bytes_text = codes "0xAb01"

odd_text : from_hex (codes "abc") ≡ none
unfolding from_hex
odd_text = refl

no_digit : from_hex (codes "zz") ≡ none
unfolding from_hex
no_digit = refl

from_hex-write_hex_example :
    (from_hex (write_hex two_bytes) ≡ some two_bytes)
    × (from_hex (b'0' ∷ b'x' ∷ write_hex two_bytes) ≡ some two_bytes)
from_hex-write_hex_example = from_hex-write_hex two_bytes (omega arith, (omega arith, tt))

from_hex-pairs_example : from_hex two_bytes_text ≡ decode_pairs (remove_prefix two_bytes_text)
from_hex-pairs_example = from_hex-pairs two_bytes_text

-- The count wraps in between.
abbrev last_clock : ℕ
last_clock = 18_446_744_073_709_551_615

since-now_example : since (last_clock + 3) (now last_clock) ≡ 3
since-now_example = since-now last_clock 3 (omega arith)
