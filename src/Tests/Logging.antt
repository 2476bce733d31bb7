-- ===== src/Tests/Logging.antt =====
-- Runs of common/log.cpp, log.hpp and tee.hpp.
use silkoroutine.Common.{
  inl, ℕ, ◌≢◌, ap, All, Bytes, [], ◌∷◌, some, none, ◌≡◌, refl, arith, codes, map, length, ==_iff,
  ◌==◌, ℤ, pos, zero, suc, List, ◌++◌, true, false, leb, if◌then◌else◌,
}
use silkoroutine.Log.{log_info, log_debug, log_error}
use silkoroutine.Log.Tee.{StreamBuf, TeeBuf, eof, is_eof, overflow, sputn}
use silkoroutine.Log.Tee.Copies.{Copied, sputn-Copied}
use silkoroutine.Log.Output.{
  put_all, Logger, Statement, Call, log_calls, line_calls, verbosity_calls, set_streams_calls,
  log_as,
}
use silkoroutine.Log.Output
use silkoroutine.Log.Output.Filter.{log_as-Wrote, Wrote, line}
use silkoroutine.Log.Output.Loss.{Misses, silent_for_good}
use silkoroutine.Log.Null.{OrNull, own, null_buf, with_null}
use silkoroutine.Log.Null.Silent.{Direct, Follows, log_lines, lines_direct, log_lines-Follows}
use silkoroutine.Log.Lock.{Step, Thread, Threads, update, Reach, here, next, lock, put, unlock}
use silkoroutine.Log.Lock
use silkoroutine.Log.Lock.Progress.{finished, never_stuck}
use silkoroutine.Log.Lock.Served.{statements_of}
use silkoroutine.Log.Threads.{kept, IsTextual, before_logging, pieces, lines_of, threads-Wrote}

memory_fails : (c : ℕ) (s : Bytes) → is_eof (pos c) ≡ true → s ++ c ∷ [] ≡ s
memory_fails c s h = cc

-- A buffer in memory, which never fails.
abbrev memory_buf : StreamBuf
memory_buf = record {
  State = Bytes;
  sputc = λ c s. (pos c, s ++ c ∷ []);
  pubsync = λ s. (pos 0, s);
  text = λ s. s;
  sputc_puts = λ c s h. refl;
  sputc_fails = memory_fails;
  pubsync_keeps = λ s. refl;
}

abbrev full_sputc : ℕ → Bytes → ℤ × Bytes
full_sputc c s = if leb 3 (length s) then (eof, s) else (pos c, s ++ c ∷ [])

full_puts :
    (c : ℕ) (s : Bytes) → is_eof (full_sputc c s).0 ≡ false → (full_sputc c s).1 ≡ s ++ c ∷ []
full_puts c s h = ground arith

full_fails : (c : ℕ) (s : Bytes) → is_eof (full_sputc c s).0 ≡ true → (full_sputc c s).1 ≡ s
full_fails c s h = ground arith

-- A buffer for three characters.
abbrev small_buf : StreamBuf
small_buf = record {
  State = Bytes;
  sputc = full_sputc;
  pubsync = λ s. (pos 0, s);
  text = λ s. s;
  sputc_puts = full_puts;
  sputc_fails = full_fails;
  pubsync_keeps = λ s. refl;
}

abbrev two_buffers : TeeBuf
two_buffers = record { sb1 = 0; sb2 = 1 }

-- The second buffer has got a character before.
abbrev texts_before : ℕ → Bytes
texts_before zero = []
texts_before (suc n) = codes "x"

sputn-Copied_example :
    Copied small_buf two_buffers
      (λ e. absurd (omega (arith, e)))
      (codes "abc")
      texts_before
      (sputn small_buf two_buffers (codes "abc") texts_before)
sputn-Copied_example =
    sputn-Copied small_buf two_buffers (λ e. absurd (omega (arith, e))) (codes "abc") texts_before
      (omega arith, (omega arith, (omega arith, tt)))

abbrev logger : Logger memory_buf
logger = record {
  verbosity = log_info;
  tee = two_buffers;
  stream = record { is_good = true; buffers = texts_before };
}

log_as-Wrote_example :
    Wrote memory_buf two_buffers
      (line log_error (codes "01-02|03:04:05.678") (codes "no" ∷ []))
      logger.stream
      (log_as memory_buf log_error (codes "01-02|03:04:05.678") (codes "no" ∷ []) logger).stream
log_as-Wrote_example =
    log_as-Wrote memory_buf log_error (codes "01-02|03:04:05.678") (codes "no" ∷ []) logger
      (λ c s. refl) (λ e. absurd (omega (arith, e)))
      (
        omega arith,
        (
          omega arith,
          (
            omega arith,
            (
              omega arith,
              (
                omega arith,
                (
                  omega arith,
                  (
                    omega arith,
                    (
                      omega arith,
                      (
                        omega arith,
                        (
                          omega arith,
                          (
                            omega arith,
                            (
                              omega arith,
                              (
                                omega arith,
                                (
                                  omega arith,
                                  (omega arith, (omega arith, (omega arith, (omega arith, tt)))),
                                ),
                              ),
                            ),
                          ),
                        ),
                      ),
                    ),
                  ),
                ),
              ),
            ),
          ),
        ),
      )
      ((omega arith, (omega arith, tt)), tt) refl

abbrev small_logger : Logger small_buf
small_logger = record {
  verbosity = log_info;
  tee = two_buffers;
  stream = record { is_good = true; buffers = texts_before };
}

-- The line is longer than a buffer.
abbrev lossy_logger : Logger small_buf
lossy_logger = log_as small_buf log_error (codes "t") (codes "no" ∷ []) small_logger

abbrev four_calls : List (Call small_buf)
four_calls =
    set_streams_calls 3 4
    ∷ verbosity_calls log_debug
    ∷ log_calls log_error (codes "t") (codes "no" ∷ [])
    ∷ line_calls log_error (codes "t") (codes "no" ∷ [])
    ∷ []

line_lost :
    Misses small_buf two_buffers
      (line log_error (codes "t") (codes "no" ∷ []))
      small_logger.stream
      lossy_logger.stream
unfolding log_as put_all Output.put sputn overflow
line_lost = inl (λ e. absurd (omega (arith, ap (λ (t : Bytes). length t) e)))

silent_for_good_example :
    (Output.run small_buf four_calls lossy_logger).stream ≡ lossy_logger.stream
silent_for_good_example =
    silent_for_good small_buf log_error (codes "t") (codes "no" ∷ []) small_logger four_calls
      (λ e. absurd (omega (arith, e))) (omega arith, tt) ((omega arith, (omega arith, tt)), tt) refl
      line_lost

-- The threads 0 and 1 log one statement each, and the thread 1 is first.
abbrev statements : ℕ → List (List Bytes)
statements zero = (codes "a" ∷ []) ∷ []
statements (suc zero) = (codes "b" ∷ codes "c" ∷ []) ∷ []
statements (suc (suc n)) = []

-- The thread 1 has just got the lock.
abbrev locked : Threads
locked = record {
  owner = some 1;
  threads =
      update 1 (record { writing = some (codes "b" ∷ codes "c" ∷ []); todo = [] })
        (Lock.start statements).threads;
  output = [];
}

first_has_more : locked.threads 0 ≢ finished
first_has_more e = absurd (omega (arith, ap (λ (th : Thread). length th.todo) e))

never_stuck_example : (t : Threads) × Step locked t
never_stuck_example =
    never_stuck statements locked 0 (next here (lock 1 (codes "b" ∷ codes "c" ∷ []) [] refl refl))
      first_has_more

abbrev one_of_two : ℕ → OrNull Bytes
one_of_two zero = own (codes "a")
one_of_two (suc n) = null_buf []

-- The stream beside `null_stream` has room for two more characters.
abbrev null_logger : Logger (with_null small_buf)
null_logger = record {
  verbosity = log_info;
  tee = two_buffers;
  stream = record { is_good = true; buffers = one_of_two };
}

abbrev one_stream : Direct small_buf
one_stream = record { is_good = true; buffer = codes "a" }

abbrev two_lines : List Statement
two_lines =
    record { level = log_debug; time = codes "t"; messages = codes "x" ∷ [] }
    ∷ record { level = log_error; time = codes "u"; messages = codes "y" ∷ [] }
    ∷ []

log_lines-Follows_example :
    Follows small_buf two_buffers
      (log_lines small_buf two_lines null_logger).stream
      (lines_direct small_buf log_info two_lines one_stream)
log_lines-Follows_example =
    log_lines-Follows small_buf two_lines null_logger one_stream (λ s. refl)
      (λ e. absurd (omega (arith, e)))
      (record { good = refl; buffers = record { given = []; first = refl; second = refl } })

-- What a thread makes of a statement for which it has the lock.
all_put :
    (i : ℕ) (texts : List Bytes) (rest : List (List Bytes)) (first s : Threads)
    → Reach first s
    → s.threads i ≡ record { writing = some texts; todo = rest }
    → (t : Threads) × Reach first t × (t.threads i ≡ record { writing = some []; todo = rest })
all_put i [] rest first s r e = (s, r, e)
all_put i (text ∷ texts) rest first s r e =
    let self : (i == i) ≡ true = (==_iff i i).1 refl in
    all_put i texts rest first
      (record s {
        threads = update i (record { writing = some texts; todo = rest }) s.threads;
        output = s.output ++ text ∷ [];
      })
      (next r (put i text texts rest e)) (simp self refl)

statement_made :
    (i : ℕ) (texts : List Bytes) (rest : List (List Bytes)) (first s : Threads)
    → Reach first s
    → s.owner ≡ none
    → s.threads i ≡ record { writing = none; todo = texts ∷ rest }
    → (t : Threads) × Reach first t × (t.owner ≡ none)
statement_made i texts rest first s r free e =
    let self : (i == i) ≡ true = (==_iff i i).1 refl in
    let (t, r', e') =
      all_put i texts rest first
        (record s {
          owner = some i;
          threads = update i (record { writing = some texts; todo = rest }) s.threads;
        })
        (next r (lock i texts rest free e)) (simp self refl) in
    (
      record t {
        owner = none;
        threads = update i (record { writing = none; todo = rest }) t.threads;
      },
      next r' (unlock i rest e'),
      refl,
    )

abbrev two_threads : ℕ → List Statement
two_threads zero = two_lines
two_threads (suc zero) = two_lines
two_threads (suc (suc n)) = []

two_threads-IsTextual : (i : ℕ) → All IsTextual (two_threads i)
two_threads-IsTextual zero = (
  ((omega arith, tt), ((omega arith, tt), tt)),
  (((omega arith, tt), ((omega arith, tt), tt)), tt),
)
two_threads-IsTextual (suc zero) = two_threads-IsTextual zero
two_threads-IsTextual (suc (suc n)) = tt

abbrev before : Threads
before = before_logging memory_buf log_info two_threads

abbrev second_logged : (t : Threads) × Reach before t × (t.owner ≡ none)
unfolding kept
second_logged =
    statement_made 1
      (pieces memory_buf
        (record { level = log_error; time = codes "u"; messages = codes "y" ∷ [] }))
      [] before before here refl refl

threads-Wrote_example :
    (log : List (ℕ × Statement)) × (rest : ℕ → List Statement) × Wrote memory_buf two_buffers
      (lines_of log)
      logger.stream
      (put_all memory_buf two_buffers second_logged.0.output logger.stream)
    × ((i : ℕ) → statements_of i log ++ rest i ≡ kept log_info (two_threads i))
    × ((i : ℕ) → map (pieces memory_buf) (rest i) ≡ (second_logged.0.threads i).todo)
threads-Wrote_example =
    threads-Wrote memory_buf log_info two_threads two_buffers logger.stream second_logged.0
      (λ c s. refl) (λ e. absurd (omega (arith, e))) refl two_threads-IsTextual second_logged.1
      second_logged.2
