-- ===== src/Log/Output.antt =====
-- silkoroutine/common/log.hpp and log.cpp: the global stream, its filter and the header of a line.
-- The time in the header, which absl gives and formats, is an argument.
pub mod Filter
pub mod Loss
use silkoroutine.Common.{
  ℕ, Bool, Bytes, List, [], ◌∷◌, ◌++◌, Option, none, some, codes, ◌==◌, ltb, length, get_elem?,
  if◌then◌else◌, not,
}
use silkoroutine.Log.{
  LogLevels, log_none, log_trace, log_debug, log_info, log_warn, log_error, log_critical,
}
use silkoroutine.Log.Tee.{StreamBuf, TeeBuf, Buffers, is_eof, sputn, sync}
use silkoroutine.Log.Tee

-- The value of an enumerator.
abbrev pub value : LogLevels → ℕ
value log_trace = 0
value log_debug = 1
value log_info = 2
value log_warn = 3
value log_error = 4
value log_critical = 5
value log_none = 6

abbrev pub log_tags : List Bytes
log_tags =
    codes "TRACE"
    ∷ codes "DEBUG"
    ∷ codes "INFO "
    ∷ codes "WARN "
    ∷ codes "ERROR"
    ∷ codes "CRIT "
    ∷ codes "NONE "
    ∷ []

-- `kLogTags_[level]`, out of bounds nothing.
abbrev pub tag_at : Option Bytes → Bytes
tag_at none = []
tag_at (some tag) = tag

-- What `SILK_LOG_AS(level) << …` is given, with the time at which it is made.
pub record Statement : Type 0 where
  pub level : LogLevels
  pub time : Bytes
  pub messages : List Bytes

module _ (B : StreamBuf) where
  -- The state of a `std::ostream` over the tee: whether it is good, and the buffers.
  pub record Stream : Type 0 where
    pub is_good : Bool
    pub buffers : Buffers B

  -- `log_streams_` with its tee buffer, and `log_verbosity_`.
  pub record Logger : Type 0 where
    pub verbosity : LogLevels
    pub tee : TeeBuf
    pub stream : Stream

  -- `operator<<` of the standard library with a text: nothing on a stream that is not good, and the
  -- stream is good no more when not all is written.
  unfoldable pub put : TeeBuf → Bytes → Stream → Stream
  put t text s =
      let (n, h) = sputn B t text s.buffers in
      if s.is_good then record { is_good = n == length text; buffers = h } else s

  unfoldable pub put_all : TeeBuf → List Bytes → Stream → Stream
  unfolding put
  put_all t [] s = s
  put_all t (text ∷ texts) s = put_all t texts (put t text s)

  -- `flush` of the standard library: a `sync`, unless the stream is not good, after which it is
  -- good no more if that returned -1.
  unfoldable pub flush : TeeBuf → Stream → Stream
  flush t s =
      let (r, h) = sync B t s.buffers in
      if s.is_good then record { is_good = not (is_eof r); buffers = h } else s

  -- `std::endl` of the standard library.
  unfoldable pub endl : TeeBuf → Stream → Stream
  unfolding put flush
  endl t s = flush t (put t (codes "\n") s)

  -- `log_::header_`.
  abbrev pub header : LogLevels → Bytes → List Bytes
  header level time = tag_at (get_elem? log_tags (value level)) ∷ codes "[" ∷ time ∷ codes "] " ∷ []

  -- `SILK_LOG_AS(level) << …`.
  unfoldable pub log_as : LogLevels → Bytes → List Bytes → Logger → Logger
  unfolding put_all
  log_as level time messages l =
      if ltb (value level) (value l.verbosity)
      then l
      else record l { stream = put_all l.tee (header level time ++ messages) l.stream }

  -- `SILK_LOG_AS(level) << … << std::endl`.
  unfoldable pub log_line : LogLevels → Bytes → List Bytes → Logger → Logger
  unfolding put_all endl
  log_line level time messages l =
      if ltb (value level) (value l.verbosity)
      then l
      else record l { stream = endl l.tee (put_all l.tee (header level time ++ messages) l.stream) }

  abbrev pub log_expand_and_compile_test : Bytes → Logger → Logger
  log_expand_and_compile_test time =
      log_line log_info time (codes "log_expand_and_compile_test_" ∷ [])

  -- `SILK_LOG_VERBOSITY`.
  unfoldable pub log_verbosity : LogLevels → Logger → Logger
  log_verbosity level l = record l { verbosity = level }

  -- `teestream::set_streams`, which leaves the state of the stream as it is.
  abbrev pub set_streams : ℕ → ℕ → Logger → Logger
  set_streams sb1 sb2 l = record l { tee = Tee.set_streams sb1 sb2 l.tee }

  -- `SILK_LOG_STREAMS`, `log_set_streams_`.
  unfoldable pub log_set_streams : ℕ → ℕ → Logger → Logger
  log_set_streams o1 o2 l = set_streams o1 o2 l

  -- What the program can do with the log, on one thread.
  pub data Call : Type 0 where
    log_calls line_calls : LogLevels → Bytes → List Bytes → Call
    verbosity_calls : LogLevels → Call
    set_streams_calls : ℕ → ℕ → Call

  unfoldable pub run : List Call → Logger → Logger
  unfolding log_as log_line log_verbosity log_set_streams
  run [] l = l
  run (log_calls level time messages ∷ cs) l = run cs (log_as level time messages l)
  run (line_calls level time messages ∷ cs) l = run cs (log_line level time messages l)
  run (verbosity_calls level ∷ cs) l = run cs (log_verbosity level l)
  run (set_streams_calls o1 o2 ∷ cs) l = run cs (log_set_streams o1 o2 l)
