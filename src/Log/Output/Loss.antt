-- ===== src/Log/Output/Loss.antt =====
-- What the log does once it has lost a character.
use mathlib.Core.List.{flatten}
use silkoroutine.Common.{
  true, false, Bytes, List, [], ◌∷◌, ◌++◌, ◌≡◌, ◌≢◌, ◌⊎◌, refl, sym, ◌∙◌, All, All-append,
  append-nil, append_assoc, ltb, ==_iff, ◌==◌, length, Bool-cases, inl, inr,
}
use silkoroutine.Log.{LogLevels}
use silkoroutine.Log.Tee.{StreamBuf, TeeBuf, sputn}
use silkoroutine.Log.Tee.Copies.{sputn-Copied}
use silkoroutine.Log.Output.{Stream, Logger, Call, put, put_all, header, log_as, value, run}
use silkoroutine.Log.Output.Filter.{
  IsText, Wrote, line, line_of_header, header-IsText, take_all, bad_stays_silent,
}

module _ (B : StreamBuf) (t : TeeBuf) (apart : t.sb1 ≢ t.sb2) where
  -- A text after which the stream is good was put whole.
  put-Wrote_good :
      (text : Bytes) (s : Stream B)
      → IsText text
      → (put B t text s).is_good ≡ true
      → (s.is_good ≡ true) × Wrote B t text s (put B t text s)
  unfolding put
  put-Wrote_good text s b g = elim (Bool-cases s.is_good) [
    | inl e ↦
        let counted : ((sputn B t text s.buffers).0 == length text) ≡ true = simp e at g in
        let n : (sputn B t text s.buffers).0 ≡ length text = (==_iff _ _).0 counted in
        let k = sputn-Copied B t apart text s.buffers b in
        (
          e,
          simp e (record {
            good = counted;
            first = k.first ∙ simp (n, take_all) refl;
            second = k.second ∙ simp (n, take_all) refl;
          }),
        )
    | inr e ↦ cc (simp e at g)
  ]

  put_all-Wrote_good :
      (texts : List Bytes) (s : Stream B)
      → All IsText texts
      → (put_all B t texts s).is_good ≡ true
      → (s.is_good ≡ true) × Wrote B t (flatten texts) s (put_all B t texts s)
  unfolding put_all flatten
  put_all-Wrote_good [] s b g =
      (g, record { good = g; first = sym (append-nil _); second = sym (append-nil _) })
  put_all-Wrote_good (text ∷ texts) s (b, bs) g =
      let (g', q) = put_all-Wrote_good texts (put B t text s) bs g in
      let (g'', p) = put-Wrote_good text s b g' in
      (
        g'',
        record {
          good = q.good;
          first = q.first ∙ simp (p.first, append_assoc) refl;
          second = q.second ∙ simp (p.second, append_assoc) refl;
        },
      )

-- One of the two buffers has not got just this text, from `s` to `s'`.
abbrev pub Misses : (B : StreamBuf) → TeeBuf → Bytes → Stream B → Stream B → Type 0
Misses B t text s s' =
    (B.text (s'.buffers t.sb1) ≢ B.text (s.buffers t.sb1) ++ text)
    ⊎ (B.text (s'.buffers t.sb2) ≢ B.text (s.buffers t.sb2) ++ text)

Misses-Wrote :
    (B : StreamBuf) (t : TeeBuf) (text : Bytes) (s s' : Stream B)
    → Misses B t text s s'
    → Wrote B t text s s'
    → ⊥
Misses-Wrote B t text s s' (inl m) w = m w.first
Misses-Wrote B t text s s' (inr m) w = m w.second

log_as-bad :
    (B : StreamBuf) (level : LogLevels) (time : Bytes) (messages : List Bytes) (l : Logger B)
    → l.tee.sb1 ≢ l.tee.sb2
    → IsText time
    → All IsText messages
    → ltb (value level) (value l.verbosity) ≡ false
    → Misses B l.tee (line level time messages) l.stream (log_as B level time messages l).stream
    → (log_as B level time messages l).stream.is_good ≡ false
unfolding log_as
log_as-bad B level time messages l apart t m kept lost =
    elim (Bool-cases (log_as B level time messages l).stream.is_good) [
      | inr e ↦ e
      | inl e ↦
          let (_, w) =
            put_all-Wrote_good B l.tee apart (header B level time ++ messages) l.stream
              (All-append IsText (header B level time) messages (header-IsText B level time t) m)
              (simp kept at e) in
          absurd (
            Misses-Wrote B l.tee (line level time messages) l.stream
              (put_all B l.tee (header B level time ++ messages) l.stream) (simp kept at lost)
              (rw (line_of_header B level time messages) at w))
    ]

-- Where a log statement of bytes, on two different buffers and not below the verbosity, does not
-- put its line whole on both of them, the log is silent for ever: whatever is logged afterwards,
-- with or without a flush, and whatever streams are set, nothing is written any more.
pub silent_for_good :
    (B : StreamBuf) (level : LogLevels) (time : Bytes) (messages : List Bytes) (l : Logger B)
    (cs : List (Call B))
    → l.tee.sb1 ≢ l.tee.sb2
    → IsText time
    → All IsText messages
    → ltb (value level) (value l.verbosity) ≡ false
    → Misses B l.tee (line level time messages) l.stream (log_as B level time messages l).stream
    → (run B cs (log_as B level time messages l)).stream ≡ (log_as B level time messages l).stream
silent_for_good B level time messages l cs apart t m kept lost =
    bad_stays_silent B cs (log_as B level time messages l)
      (log_as-bad B level time messages l apart t m kept lost)
