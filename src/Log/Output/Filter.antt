-- ===== src/Log/Output/Filter.antt =====
-- Which lines are written, and what they are.
use mathlib.Core.List.{flatten}
use silkoroutine.Common.{
  ℕ, zero, suc, ◌+◌, ◌<◌, true, false, Bytes, List, [], ◌∷◌, ◌++◌, codes, ◌≡◌, ◌≢◌, refl, sym, ap,
  ◌∙◌, All, arith, append_assoc, append-nil, length, leb, ltb, if◌then◌else◌, All-append, ==_iff,
  Bool-cases, inl, inr,
}
use silkoroutine.Log.{
  LogLevels, log_trace, log_debug, log_info, log_warn, log_error, log_critical, log_none,
}
use silkoroutine.Log.Tee.{StreamBuf, TeeBuf, Buffers, is_eof, sputn, overflow}
use silkoroutine.Log.Tee.Copies.{sputn-Copied, take}
use silkoroutine.Log.Output.{
  Stream, Logger, put, put_all, endl, header, log_as, log_line, log_verbosity, log_set_streams,
  value, Call, log_calls, line_calls, verbosity_calls, set_streams_calls, run,
}

add_suc : (m n : ℕ) → suc m + n ≡ suc (m + n)
add_suc m n = omega arith

module _ (B : StreamBuf) where
  all_bad :
      (t : TeeBuf) (texts : List Bytes) (s : Stream B) → s.is_good ≡ false → put_all B t texts s ≡ s
  unfolding put_all
  all_bad t [] s h = refl
  all_bad t (text ∷ texts) s h = simp h (all_bad t texts s h)

  log_as_bad :
      (level : LogLevels) (time : Bytes) (messages : List Bytes) (l : Logger B)
      → l.stream.is_good ≡ false
      → (log_as B level time messages l).stream ≡ l.stream
  unfolding log_as
  log_as_bad level time messages l h = elim (Bool-cases (ltb (value level) (value l.verbosity))) [
    | inl e ↦ simp e refl
    | inr e ↦ simp e (all_bad l.tee (header B level time ++ messages) l.stream h)
  ]

  endl_bad : (t : TeeBuf) (s : Stream B) → s.is_good ≡ false → endl B t s ≡ s
  unfolding endl
  endl_bad t s h = simp h refl

  log_line_bad :
      (level : LogLevels) (time : Bytes) (messages : List Bytes) (l : Logger B)
      → l.stream.is_good ≡ false
      → (log_line B level time messages l).stream ≡ l.stream
  unfolding log_line
  log_line_bad level time messages l h = elim (Bool-cases (ltb (value level) (value l.verbosity))) [
    | inl e ↦ simp e refl
    | inr e ↦
        let same = all_bad l.tee (header B level time ++ messages) l.stream h in
        simp (e, same) (endl_bad l.tee l.stream h)
  ]

  -- A stream that is not good is not written to any more.
  pub bad_stays_silent :
      (cs : List (Call B)) (l : Logger B)
      → l.stream.is_good ≡ false
      → (run B cs l).stream ≡ l.stream
  unfolding run
  bad_stays_silent [] l h = refl
  bad_stays_silent (log_calls level time messages ∷ cs) l h =
      let kept = log_as_bad level time messages l h in
      bad_stays_silent cs (log_as B level time messages l)
        (ap (λ (s : Stream B). s.is_good) kept ∙ h)
      ∙ kept
  bad_stays_silent (line_calls level time messages ∷ cs) l h =
      let kept = log_line_bad level time messages l h in
      bad_stays_silent cs (log_line B level time messages l)
        (ap (λ (s : Stream B). s.is_good) kept ∙ h)
      ∙ kept
  bad_stays_silent (verbosity_calls level ∷ cs) l h =
      bad_stays_silent cs (log_verbosity B level l) h
  bad_stays_silent (set_streams_calls o1 o2 ∷ cs) l h =
      bad_stays_silent cs (log_set_streams B o1 o2 l) h

pub take_all : (cs : Bytes) (k : ℕ) → take (length cs + k) cs ≡ cs
take_all [] k = take_nil (0 + k)
  where
    take_nil : (n : ℕ) → take n [] ≡ []
    take_nil zero = refl
    take_nil (suc n) = refl
take_all (c ∷ cs) k = rw (add_suc (length cs) k) (ap (◌∷◌ c) (take_all cs k))

abbrev pub IsText : Bytes → Type 0
IsText = All (λ c. c < 256)

module _ (B : StreamBuf) where
  -- Both buffers have got a text, and the stream is good.
  pub record Wrote (t : TeeBuf) (text : Bytes) (s s' : Stream B) : Type 0 where
    pub good : s'.is_good ≡ true
    pub first : B.text (s'.buffers t.sb1) ≡ B.text (s.buffers t.sb1) ++ text
    pub second : B.text (s'.buffers t.sb2) ≡ B.text (s.buffers t.sb2) ++ text

module _ (B : StreamBuf) (never : (c : ℕ) (s : B.State) → is_eof (B.sputc c s).0 ≡ false) where
  count_whole : (t : TeeBuf) (cs : Bytes) (h : Buffers B) → (sputn B t cs h).0 ≡ length cs
  unfolding sputn overflow
  count_whole t [] h = refl
  count_whole t (c ∷ cs) h = rw (never, never) (ap suc (count_whole t cs _))

  module _ (t : TeeBuf) (apart : t.sb1 ≢ t.sb2) where
    put-Wrote :
        (text : Bytes) (s : Stream B)
        → IsText text
        → s.is_good ≡ true
        → Wrote B t text s (put B t text s)
    unfolding put
    put-Wrote text s b g =
        let n = count_whole t text s.buffers in
        let k = sputn-Copied B t apart text s.buffers b in
        simp g (record {
          good = rw n ((==_iff _ _).1 refl);
          first = k.first ∙ simp (n, take_all) refl;
          second = k.second ∙ simp (n, take_all) refl;
        })

    pub put_all-Wrote :
        (texts : List Bytes) (s : Stream B)
        → All IsText texts
        → s.is_good ≡ true
        → Wrote B t (flatten texts) s (put_all B t texts s)
    unfolding put_all flatten
    put_all-Wrote [] s b g = record {
      good = g;
      first = sym (append-nil _);
      second = sym (append-nil _);
    }
    put_all-Wrote (text ∷ texts) s (b, bs) g =
        let p = put-Wrote text s b g in
        let q = put_all-Wrote texts (put B t text s) bs p.good in
        record {
          good = q.good;
          first = q.first ∙ simp (p.first, append_assoc) refl;
          second = q.second ∙ simp (p.second, append_assoc) refl;
        }

-- The five letters that a line of a level begins with.
abbrev pub label : LogLevels → Bytes
label log_trace = codes "TRACE"
label log_debug = codes "DEBUG"
label log_info = codes "INFO "
label log_warn = codes "WARN "
label log_error = codes "ERROR"
label log_critical = codes "CRIT "
label log_none = codes "NONE "

abbrev pub line : LogLevels → Bytes → List Bytes → Bytes
line level time messages = label level ++ (b'[' ∷ time ++ (b']' ∷ b' ' ∷ flatten messages))

pub line_of_header :
    (B : StreamBuf) (level : LogLevels) (time : Bytes) (messages : List Bytes)
    → flatten (header B level time ++ messages) ≡ line level time messages
unfolding flatten
line_of_header B log_trace time messages = refl
line_of_header B _ time messages = refl

pub header-IsText :
    (B : StreamBuf) (level : LogLevels) (time : Bytes)
    → IsText time
    → All IsText (header B level time)
header-IsText B log_trace time h = (omega arith, (omega arith, (h, (omega arith, tt))))
header-IsText B _ time h = (omega arith, (omega arith, (h, (omega arith, tt))))

-- On a good stream over two different buffers that never fail, a log statement with texts of bytes
-- writes its line to both: the label of the level, the time in brackets and the messages. It does
-- so exactly if its level is not below the verbosity, and writes nothing otherwise.
pub log_as-Wrote :
    (B : StreamBuf) (level : LogLevels) (time : Bytes) (messages : List Bytes) (l : Logger B)
    → ((c : ℕ) (s : B.State) → is_eof (B.sputc c s).0 ≡ false)
    → l.tee.sb1 ≢ l.tee.sb2
    → IsText time
    → All IsText messages
    → l.stream.is_good ≡ true
    → Wrote B l.tee
        (if leb (value l.verbosity) (value level) then line level time messages else [])
        l.stream
        (log_as B level time messages l).stream
unfolding log_as
log_as-Wrote B level time messages l never apart t m g =
    elim (Bool-cases (ltb (value level) (value l.verbosity))) [
      | inl e ↦
          let e' : leb (value l.verbosity) (value level) ≡ false = ground arith in
          simp (e, e')
            (record { good = g; first = sym (append-nil _); second = sym (append-nil _) })
      | inr e ↦
          let e' : leb (value l.verbosity) (value level) ≡ true = ground arith in
          simp (e, e')
            (rw (← line_of_header B level time messages) (
              put_all-Wrote B never l.tee apart (header B level time ++ messages) l.stream
                (All-append IsText (header B level time) messages (header-IsText B level time t) m)
                g))
    ]
