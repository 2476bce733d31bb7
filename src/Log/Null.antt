-- ===== src/Log/Null.antt =====
-- `null_stream` of silkoroutine/common/log.cpp. Its buffer takes every character and keeps none:
-- the text that stands in the model is only what it was given.
pub mod Silent
use silkoroutine.Common.{ℕ, true, false, Bytes, [], ◌∷◌, ◌++◌, ◌≡◌, refl, ℤ, pos}
use silkoroutine.Log.Tee.{StreamBuf, is_eof}

-- One of the buffers of the program, or `null_buf`.
pub data OrNull (A : Type 0) : Type 0 where
  own : A → OrNull A
  null_buf : Bytes → OrNull A

abbrev map_own : {A : Type 0} → ℤ × A → ℤ × OrNull A
map_own (r, s) = (r, own s)

module _ (B : StreamBuf) where
  -- `null_buf` has no room, so a put is an `overflow`, which returns the character.
  unfoldable pub sputc_or_null : ℕ → OrNull B.State → ℤ × OrNull B.State
  sputc_or_null c (own s) = map_own (B.sputc c s)
  sputc_or_null c (null_buf text) = (pos c, null_buf (text ++ c ∷ []))

  -- `null_buf` has the `sync` of `std::streambuf`, which does nothing.
  unfoldable pub pubsync_or_null : OrNull B.State → ℤ × OrNull B.State
  pubsync_or_null (own s) = map_own (B.pubsync s)
  pubsync_or_null (null_buf text) = (pos 0, null_buf text)

  unfoldable pub text_or_null : OrNull B.State → Bytes
  text_or_null (own s) = B.text s
  text_or_null (null_buf text) = text

  pub or_null_puts :
      (c : ℕ) (s : OrNull B.State)
      → is_eof (sputc_or_null c s).0 ≡ false
      → text_or_null (sputc_or_null c s).1 ≡ text_or_null s ++ c ∷ []
  unfolding sputc_or_null text_or_null
  or_null_puts c (own s) h = B.sputc_puts c s h
  or_null_puts c (null_buf text) h = refl

  pub or_null_fails :
      (c : ℕ) (s : OrNull B.State)
      → is_eof (sputc_or_null c s).0 ≡ true
      → text_or_null (sputc_or_null c s).1 ≡ text_or_null s
  unfolding sputc_or_null text_or_null
  or_null_fails c (own s) h = B.sputc_fails c s h
  or_null_fails c (null_buf text) h = cc

  pub or_null_syncs : (s : OrNull B.State) → text_or_null (pubsync_or_null s).1 ≡ text_or_null s
  unfolding pubsync_or_null text_or_null
  or_null_syncs (own s) = B.pubsync_keeps s
  or_null_syncs (null_buf text) = refl

  -- The buffers of a program that has `null_stream` beside others.
  abbrev pub with_null : StreamBuf
  with_null = record {
    State = OrNull B.State;
    sputc = sputc_or_null;
    pubsync = pubsync_or_null;
    text = text_or_null;
    sputc_puts = or_null_puts;
    sputc_fails = or_null_fails;
    pubsync_keeps = or_null_syncs;
  }
