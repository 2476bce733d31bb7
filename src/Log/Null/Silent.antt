-- ===== src/Log/Null/Silent.antt =====
-- The log as the program begins with it: one stream, and `null_stream` beside it.
use silkoroutine.Common.{
  ℕ, suc, ◌%◌, Bool, true, false, Bytes, List, [], ◌∷◌, ◌++◌, codes, ◌≡◌, ◌≢◌, refl, sym, ap, ◌∙◌,
  ◌==◌, pos, ◌||◌, length, ltb, not, if◌then◌else◌, arith, Bool-cases, inl, inr, ==_iff,
}
use silkoroutine.Log.{LogLevels}
use silkoroutine.Log.Tee.{StreamBuf, TeeBuf, Buffers, eof, is_eof, is_zero, overflow, sync, sputn}
use silkoroutine.Log.Output.{
  Stream, Logger, put, put_all, flush, endl, header, value, log_line, Statement,
}
use silkoroutine.Log.Null.{own, null_buf, with_null, sputc_or_null, pubsync_or_null}

module _ (B : StreamBuf) where
  -- A `std::ostream` on one buffer, with no tee.
  pub record Direct : Type 0 where
    pub is_good : Bool
    pub buffer : B.State

  unfoldable pub sputn_direct : Bytes → B.State → ℕ × B.State
  sputn_direct [] s = (0, s)
  sputn_direct (c ∷ cs) s =
      let (r, s') = B.sputc (c % 256) s in
      let (n, s'') = sputn_direct cs s' in if is_eof r then (0, s') else (suc n, s'')

  unfoldable pub put_direct : Bytes → Direct → Direct
  put_direct text d =
      let (n, s) = sputn_direct text d.buffer in
      if d.is_good then record { is_good = n == length text; buffer = s } else d

  unfoldable pub put_all_direct : List Bytes → Direct → Direct
  put_all_direct [] d = d
  put_all_direct (text ∷ texts) d = put_all_direct texts (put_direct text d)

  unfoldable pub flush_direct : Direct → Direct
  flush_direct d =
      let (r, s) = B.pubsync d.buffer in
      if d.is_good then record { is_good = not (is_eof r); buffer = s } else d

  unfoldable pub line_direct : LogLevels → Statement → Direct → Direct
  line_direct verbosity x d =
      if ltb (value x.level) (value verbosity)
      then d
      else flush_direct (
          put_direct (codes "\n")
            (put_all_direct (header (with_null B) x.level x.time ++ x.messages) d))

  unfoldable pub lines_direct : LogLevels → List Statement → Direct → Direct
  lines_direct verbosity [] d = d
  lines_direct verbosity (x ∷ xs) d = lines_direct verbosity xs (line_direct verbosity x d)

  unfoldable pub log_lines : List Statement → Logger (with_null B) → Logger (with_null B)
  log_lines [] l = l
  log_lines (x ∷ xs) l = log_lines xs (log_line (with_null B) x.level x.time x.messages l)

  -- The buffers of a tee of one stream and `null_stream`, where the stream's own buffer is in the
  -- state `s`.
  pub record Holds (t : TeeBuf) (h : Buffers (with_null B)) (s : B.State) : Type 0 where
    pub given : Bytes
    pub first : h t.sb1 ≡ own s
    pub second : h t.sb2 ≡ null_buf given

  pub record Follows (t : TeeBuf) (s : Stream (with_null B)) (d : Direct) : Type 0 where
    pub good : s.is_good ≡ d.is_good
    pub buffers : Holds t s.buffers d.buffer

result_is_eof : (b : Bool) (c : ℕ) → is_eof (if b || false then eof else pos c) ≡ b
result_is_eof true c = refl
result_is_eof false c = refl

module _ (B : StreamBuf) (t : TeeBuf) (apart : t.sb1 ≢ t.sb2) where
  far : (t.sb1 == t.sb2) ≡ false
  far = ground arith

  far' : (t.sb2 == t.sb1) ≡ false
  far' = ground arith

  itself : (a : ℕ) → (a == a) ≡ true
  itself a = (==_iff a a).1 refl

  overflow-Holds :
      (c : ℕ) (h : Buffers (with_null B)) (s : B.State)
      → Holds B t h s
      → (is_eof (overflow (with_null B) t (pos c) h).0 ≡ is_eof (B.sputc (c % 256) s).0)
        × Holds B t (overflow (with_null B) t (pos c) h).1 (B.sputc (c % 256) s).1
  unfolding overflow sputc_or_null
  overflow-Holds c h s v = (
    simp (v.first, far', v.second) (result_is_eof (is_eof (B.sputc (c % 256) s).0) c),
    record {
      given = v.given ++ c % 256 ∷ [];
      first = simp (far, itself, v.first) refl;
      second = simp (far', itself, v.second) refl;
    },
  )

  sputn-Holds :
      (cs : Bytes) (h : Buffers (with_null B)) (s : B.State)
      → Holds B t h s
      → ((sputn (with_null B) t cs h).0 ≡ (sputn_direct B cs s).0)
        × Holds B t (sputn (with_null B) t cs h).1 (sputn_direct B cs s).1
  unfolding sputn sputn_direct
  sputn-Holds [] h s v = (refl, v)
  sputn-Holds (c ∷ cs) h s v =
      let (same, u) = overflow-Holds c h s v in
      let h' : Buffers (with_null B) = (overflow (with_null B) t (pos c) h).1 in
      let s' : B.State = (B.sputc (c % 256) s).1 in
      let rest = sputn-Holds cs h' s' u in
      elim (Bool-cases (is_eof (B.sputc (c % 256) s).0)) [
        | inl e ↦ rw (same, e) (refl, u)
        | inr e ↦ rw (same, e) (ap suc rest.0, rest.1)
      ]

  put-Follows :
      (text : Bytes) (s : Stream (with_null B)) (d : Direct B)
      → Follows B t s d
      → Follows B t (put (with_null B) t text s) (put_direct B text d)
  unfolding put put_direct
  put-Follows text s d v =
      let (n, h) = sputn-Holds text s.buffers d.buffer v.buffers in
      elim (Bool-cases d.is_good) [
        | inl e ↦ simp (v.good, e) (record { good = rw n refl; buffers = h })
        | inr e ↦ simp (v.good, e) v
      ]

  put_all-Follows :
      (texts : List Bytes) (s : Stream (with_null B)) (d : Direct B)
      → Follows B t s d
      → Follows B t (put_all (with_null B) t texts s) (put_all_direct B texts d)
  unfolding put_all put_all_direct
  put_all-Follows [] s d v = v
  put_all-Follows (text ∷ texts) s d v =
      put_all-Follows texts (put (with_null B) t text s) (put_direct B text d)
        (put-Follows text s d v)

  module _ (syncs : (s : B.State) → is_zero (B.pubsync s).0 ≡ not (is_eof (B.pubsync s).0)) where
    sync-Holds :
        (h : Buffers (with_null B)) (s : B.State)
        → Holds B t h s
        → (not (is_eof (sync (with_null B) t h).0) ≡ not (is_eof (B.pubsync s).0))
          × Holds B t (sync (with_null B) t h).1 (B.pubsync s).1
    unfolding sync pubsync_or_null
    sync-Holds h s v = (
      simp (v.first, far', v.second)
          (elim (Bool-cases (is_zero (B.pubsync s).0)) [
            | inl e ↦ rw e (sym e ∙ syncs s)
            | inr e ↦ rw e (sym e ∙ syncs s)
          ]),
      record {
        given = v.given;
        first = simp (far, itself, v.first) refl;
        second = simp (far', itself, v.second) refl;
      },
    )

    flush-Follows :
        (s : Stream (with_null B)) (d : Direct B)
        → Follows B t s d
        → Follows B t (flush (with_null B) t s) (flush_direct B d)
    unfolding flush flush_direct
    flush-Follows s d v =
        let (r, h) = sync-Holds s.buffers d.buffer v.buffers in
        elim (Bool-cases d.is_good) [
          | inl e ↦ simp (v.good, e) (record { good = r; buffers = h })
          | inr e ↦ simp (v.good, e) v
        ]

    line-Follows :
        (texts : List Bytes) (s : Stream (with_null B)) (d : Direct B)
        → Follows B t s d
        → Follows B t
            (endl (with_null B) t (put_all (with_null B) t texts s))
            (flush_direct B (put_direct B (codes "\n") (put_all_direct B texts d)))
    unfolding endl
    line-Follows texts s d v =
        flush-Follows _ _ (put-Follows (codes "\n") _ _ (put_all-Follows texts s d v))

-- Where the second stream is `null_stream`, as the program begins, the log does with the first what
-- the same lines do that are written to it with no tee: its buffer is called in the same way, and
-- the log is good as long as that stream would be. So `null_stream` never spoils the log. The
-- buffers need to be two, and a sync of the first one to return 0 or -1.
pub log_lines-Follows :
    (B : StreamBuf) (xs : List Statement) (l : Logger (with_null B)) (d : Direct B)
    → ((s : B.State) → is_zero (B.pubsync s).0 ≡ not (is_eof (B.pubsync s).0))
    → l.tee.sb1 ≢ l.tee.sb2
    → Follows B l.tee l.stream d
    → Follows B l.tee (log_lines B xs l).stream (lines_direct B l.verbosity xs d)
unfolding log_lines lines_direct line_direct log_line
log_lines-Follows B [] l d syncs apart v = v
log_lines-Follows B (x ∷ xs) l d syncs apart v =
    elim (Bool-cases (ltb (value x.level) (value l.verbosity))) [
      | inl e ↦ simp e (log_lines-Follows B xs l d syncs apart v)
      | inr e ↦ simp e (
          log_lines-Follows B xs _ _ syncs apart (
            line-Follows B l.tee apart syncs (header (with_null B) x.level x.time ++ x.messages)
              l.stream d v))
    ]
