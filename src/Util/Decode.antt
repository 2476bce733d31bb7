-- ===== src/Util/Decode.antt =====
-- `from_hex` against a plain reading of pairs of digits.
use Prim.Native.Nat.{bit_or}
use silkoroutine.Common.{
  ℕ, zero, suc, ◌+◌, ◌*◌, ◌/◌, ◌%◌, ◌<◌, Bool, true, ◌&&◌, [], ◌∷◌, ◌++◌, Option, none, some, ◌≡◌,
  refl, ◌∙◌, inl, inr, Bytes, ◌==◌, ==_iff, length, arith, Bool-cases, sym, ◌≢◌, append_assoc,
  append-nil,
}
use silkoroutine.Util.{decode_hex_digit, remove_prefix, hex_loop, from_hex}

infixl 5 ◌>>=◌
abbrev pub ◌>>=◌ : {A B : Type 0} → Option A → (A → Option B) → Option B
none >>= f = none
some a >>= f = f a

-- Each pair of digits is one byte, the high digit first.
unfoldable pub decode_pairs : Bytes → Option Bytes
decode_pairs [] = some []
decode_pairs (a ∷ []) = none
decode_pairs (a ∷ b ∷ rest) = do
  high ← decode_hex_digit a
  low ← decode_hex_digit b
  bytes ← decode_pairs rest
  some ((high * 16 + low) ∷ bytes)

-- The test of every number under the limit.
passes : (ℕ → Bool) → ℕ → Bool
passes test zero = true
passes test (suc last) = passes test last && test last

passes-at : (test : ℕ → Bool) (limit x : ℕ) → x < limit → passes test limit ≡ true → test x ≡ true
unfolding passes
passes-at test zero x small passed = absurd (omega arith)
passes-at test (suc last) x small passed = ground (arith, passes-at test last x)

digits_joined : passes (λ b. bit_or (b / 16 * 16) (b % 16) % 256 == b) 256 ≡ true
unfolding passes
digits_joined = refl

bit_or-split : (x : ℕ) → x < 256 → bit_or (x / 16 * 16) (x % 16) % 256 ≡ x
bit_or-split x h = (==_iff _ x).0 (passes-at _ 256 x h digits_joined)

-- `(v << 4) | w` of two digits.
bit_or-digits : (v w : ℕ) → v < 16 → w < 16 → bit_or (v * 16) w % 256 ≡ v * 16 + w
bit_or-digits v w hv hw =
    let high : (v * 16 + w) / 16 ≡ v = omega arith in
    let low : (v * 16 + w) % 16 ≡ w = omega arith in
    let whole = bit_or-split (v * 16 + w) (omega arith) in rw (high, low) at whole

pub decode_hex_digit-lt : (c v : ℕ) → decode_hex_digit c ≡ some v → v < 16
unfolding decode_hex_digit
decode_hex_digit-lt c v h = ground arith

join : Bytes → Option Bytes → Option Bytes
join out none = none
join out (some bytes) = some (out ++ bytes)

even_step :
    (c : ℕ) (hex : Bytes) (i carry : ℕ) (out : Bytes) (v : ℕ)
    → i % 2 ≡ 0
    → decode_hex_digit c ≡ some v
    → hex_loop (c ∷ hex) i carry out ≡ hex_loop hex (i + 1) (v * 16) out
unfolding hex_loop
even_step c hex i carry out v e d = rw (d, hex_loop) (rw e)

odd_step :
    (c : ℕ) (hex : Bytes) (i carry : ℕ) (out : Bytes) (v : ℕ)
    → i % 2 ≡ 1
    → decode_hex_digit c ≡ some v
    → hex_loop (c ∷ hex) i carry out
      ≡ hex_loop hex (i + 1) carry (out ++ (bit_or carry v % 256) ∷ [])
unfolding hex_loop
odd_step c hex i carry out v e d = rw (d, hex_loop) (rw e)

bad_step :
    (c : ℕ) (hex : Bytes) (i carry : ℕ) (out : Bytes)
    → decode_hex_digit c ≡ none
    → hex_loop (c ∷ hex) i carry out ≡ none
unfolding hex_loop
bad_step c hex i carry out d = rw (d, hex_loop)

join-cons :
    (out : Bytes) (b : ℕ) (r : Option Bytes)
    → join (out ++ b ∷ []) r ≡ join out (r >>= λ bytes. some (b ∷ bytes))
unfolding join
join-cons out b none = refl
join-cons out b (some bytes) = rw append_assoc

pair_step :
    (a b : ℕ) (rest : Bytes) (i carry : ℕ) (out : Bytes) (x y : Option ℕ)
    → decode_hex_digit a ≡ x
    → decode_hex_digit b ≡ y
    → i % 2 ≡ 0
    → ((carry' : ℕ) (out' : Bytes)
        → hex_loop rest (i + 1 + 1) carry' out' ≡ join out' (decode_pairs rest))
    → hex_loop (a ∷ b ∷ rest) i carry out ≡ join out (decode_pairs (a ∷ b ∷ rest))
unfolding decode_pairs join
pair_step a b rest i carry out none y p q e ih =
    bad_step a (b ∷ rest) i carry out p ∙ rw (p, decode_pairs)
pair_step a b rest i carry out (some v) none p q e ih =
    even_step a (b ∷ rest) i carry out v e p
    ∙ bad_step b rest (i + 1) (v * 16) out q
    ∙ rw (p, q, decode_pairs)
pair_step a b rest i carry out (some v) (some w) p q e ih =
    even_step a (b ∷ rest) i carry out v e p
    ∙ odd_step b rest (i + 1) (v * 16) out w (omega arith) q
    ∙ ih (v * 16) (out ++ (bit_or (v * 16) w % 256) ∷ [])
    ∙ rw
        (
          bit_or-digits v w (decode_hex_digit-lt a v p) (decode_hex_digit-lt b w q),
          p,
          q,
          decode_pairs,
        )
        (join-cons out (v * 16 + w) (decode_pairs rest))

hex_loop-pairs :
    (hex : Bytes) (i carry : ℕ) (out : Bytes)
    → i % 2 ≡ 0
    → length hex % 2 ≡ 0
    → hex_loop hex i carry out ≡ join out (decode_pairs hex)
unfolding hex_loop decode_pairs join
hex_loop-pairs [] i carry out e h = rw append-nil
hex_loop-pairs (a ∷ []) i carry out e h = absurd (omega arith)
hex_loop-pairs (a ∷ b ∷ rest) i carry out e h =
    pair_step a b rest i carry out _ _ refl refl e
      λ carry' out'. hex_loop-pairs rest (i + 1 + 1) carry' out' (omega arith) (omega arith)

odd-decode_pairs : (hex : Bytes) → length hex % 2 ≢ 0 → decode_pairs hex ≡ none
unfolding decode_pairs
odd-decode_pairs [] h = absurd (h refl)
odd-decode_pairs (a ∷ []) h = refl
odd-decode_pairs (a ∷ b ∷ rest) h =
    rw (odd-decode_pairs rest (omega arith), decode_pairs) (ground arith)

join-nil : (r : Option Bytes) → join [] r ≡ r
unfolding join
join-nil none = refl
join-nil (some bytes) = refl

-- `from_hex` drops one leading `0x` or `0X` and reads pairs of digits; it fails exactly where that
-- reading does, on an odd number of characters or a character that is no digit.
pub from_hex-pairs : (text : Bytes) → from_hex text ≡ decode_pairs (remove_prefix text)
unfolding from_hex
from_hex-pairs text = elim (Bool-cases (length (remove_prefix text) % 2 == 0)) [
  | inl e ↦ rw e (
      hex_loop-pairs (remove_prefix text) 0 0 [] refl ((==_iff _ _).0 e)
      ∙ join-nil (decode_pairs (remove_prefix text)))
  | inr o ↦ rw o (sym (odd-decode_pairs (remove_prefix text) (λ z. cc (o, (==_iff _ 0).1 z))))
]
