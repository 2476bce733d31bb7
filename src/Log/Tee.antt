-- ===== src/Log/Tee.antt =====
-- silkoroutine/common/tee.hpp: a stream buffer that passes all it gets to two others.
pub mod Copies
use silkoroutine.Common.{
  ℕ, suc, ◌-◌, ◌%◌, Bool, true, false, ◌&&◌, ◌||◌, Bytes, [], ◌∷◌, ◌++◌, ◌≡◌, ◌==◌, ℤ, pos, negsuc,
  if◌then◌else◌,
}

abbrev pub eof : ℤ
eof = negsuc 0

abbrev pub is_eof : ℤ → Bool
is_eof (pos n) = false
is_eof (negsuc n) = n == 0

abbrev pub is_zero : ℤ → Bool
is_zero (pos n) = n == 0
is_zero (negsuc n) = false

-- `static_cast<char>(c)`, as a byte.
abbrev pub char_of : ℤ → ℕ
char_of (pos n) = n % 256
char_of (negsuc n) = 255 - n % 256

-- A `std::streambuf` of the standard library, with the text that it has taken: `sputc` puts one
-- character or returns EOF and puts none, and `pubsync` puts none.
pub record StreamBuf : Type 1 where
  pub State : Type 0
  pub sputc : ℕ → State → ℤ × State
  pub pubsync : State → ℤ × State
  pub text : State → Bytes
  pub sputc_puts :
      (c : ℕ) (s : State) → is_eof (sputc c s).0 ≡ false → text (sputc c s).1 ≡ text s ++ c ∷ []
  pub sputc_fails : (c : ℕ) (s : State) → is_eof (sputc c s).0 ≡ true → text (sputc c s).1 ≡ text s
  pub pubsync_keeps : (s : State) → text (pubsync s).1 ≡ text s

-- `teebuf` holds two pointers: the addresses of two buffers.
pub record TeeBuf : Type 0 where
  pub sb1 : ℕ
  pub sb2 : ℕ

unfoldable pub set_streams : ℕ → ℕ → TeeBuf → TeeBuf
set_streams b1 b2 t = record t { sb1 = b1; sb2 = b2 }

module _ (B : StreamBuf) where
  -- The buffers of the program, by their addresses.
  abbrev pub Buffers : Type 0
  Buffers = ℕ → B.State

  abbrev pub store : ℕ → B.State → Buffers → Buffers
  store a s h b = if b == a then s else h b

  abbrev sputc_at : ℕ → ℕ → Buffers → ℤ × Buffers
  sputc_at a c h = let (r, s) = B.sputc c (h a) in (r, store a s h)

  abbrev pubsync_at : ℕ → Buffers → ℤ × Buffers
  pubsync_at a h = let (r, s) = B.pubsync (h a) in (r, store a s h)

  -- `!EOF` is 0.
  unfoldable pub overflow : TeeBuf → ℤ → Buffers → ℤ × Buffers
  overflow t c h =
      if is_eof c
      then (pos 0, h)
      else let (r1, h1) = sputc_at t.sb1 (char_of c) h in
        let (r2, h2) = sputc_at t.sb2 (char_of c) h1 in
        (if is_eof r1 || is_eof r2 then eof else c, h2)

  unfoldable pub sync : TeeBuf → Buffers → ℤ × Buffers
  sync t h =
      let (r1, h1) = pubsync_at t.sb1 h in
      let (r2, h2) = pubsync_at t.sb2 h1 in
      (if is_zero r1 && is_zero r2 then pos 0 else negsuc 0, h2)

  -- `sputn` of the standard library, on a buffer that holds nothing itself: it overflows each
  -- character in turn until one returns EOF, and returns the number of those before.
  unfoldable pub sputn : TeeBuf → Bytes → Buffers → ℕ × Buffers
  sputn t [] h = (0, h)
  sputn t (c ∷ cs) h =
      let (r, h') = overflow t (pos c) h in
      let (n, h'') = sputn t cs h' in if is_eof r then (0, h') else (suc n, h'')
