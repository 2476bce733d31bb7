-- ===== src/Log/Threads.antt =====
-- The log of several threads over a tee of two buffers: silkoroutine/common/log.hpp and tee.hpp at
-- work together. Each thread makes its statements in turn, under the lock; no thread sets the
-- verbosity or the streams meanwhile.
use mathlib.Core.List.{flatten}
use silkoroutine.Common.{
  ℕ, true, false, Bytes, List, [], ◌∷◌, ◌++◌, map, none, ◌≡◌, ◌≢◌, refl, sym, ap, ◌∙◌, subst, All,
  All-append, ltb, if◌then◌else◌, Bool-cases, inl, inr,
}
use silkoroutine.Log.{LogLevels}
use silkoroutine.Log.Tee.{StreamBuf, TeeBuf, is_eof}
use silkoroutine.Log.Output.{Stream, Statement, header, value, put_all}
use silkoroutine.Log.Output.Filter.{
  IsText, Wrote, line, line_of_header, header-IsText, put_all-Wrote,
}
use silkoroutine.Log.Lock.{Threads, Reach, start}
use silkoroutine.Log.Lock.Served.{statements_of, texts_of, flatten-append}
use silkoroutine.Log.Lock.Entries.{Entries, log-Entries}
use silkoroutine.Log.Lock.Lines.{output_unmixed}

-- The statements that `SILK_LOG_AS` does not drop.
unfoldable pub kept : LogLevels → List Statement → List Statement
kept verbosity [] = []
kept verbosity (x ∷ xs) =
    if ltb (value x.level) (value verbosity) then kept verbosity xs else x ∷ kept verbosity xs

abbrev pub line_of : Statement → Bytes
line_of x = line x.level x.time x.messages

abbrev pub IsTextual : Statement → Type 0
IsTextual x = IsText x.time × All IsText x.messages

abbrev pub lines_of : List (ℕ × Statement) → Bytes
lines_of log = flatten (map (λ (e : ℕ × Statement). line_of e.1) log)

kept-All :
    (P : Statement → Type 0) (verbosity : LogLevels) (xs : List Statement)
    → All P xs
    → All P (kept verbosity xs)
unfolding kept
kept-All P verbosity [] h = tt
kept-All P verbosity (x ∷ xs) h = elim (Bool-cases (ltb (value x.level) (value verbosity))) [
  | inl e ↦ simp e (kept-All P verbosity xs h.1)
  | inr e ↦ simp e (h.0, kept-All P verbosity xs h.1)
]

module _ (B : StreamBuf) where
  -- What a statement puts, one `<<` after the other.
  abbrev pub pieces : Statement → List Bytes
  pieces x = header B x.level x.time ++ x.messages

  abbrev pub put_by : List (ℕ × Statement) → List (ℕ × List Bytes)
  put_by log = map (λ (e : ℕ × Statement). (e.0, pieces e.1)) log

  texts_of-lines : (log : List (ℕ × Statement)) → flatten (texts_of (put_by log)) ≡ lines_of log
  unfolding flatten
  texts_of-lines [] = refl
  texts_of-lines ((i, x) ∷ log) =
      flatten-append (pieces x) (texts_of (put_by log))
      ∙ ap (λ b. b ++ flatten (texts_of (put_by log))) (line_of_header B x.level x.time x.messages)
      ∙ ap (◌++◌ (line_of x)) (texts_of-lines log)

  texts_of-IsText :
      (log : List (ℕ × Statement))
      → All (λ (e : ℕ × Statement). IsTextual e.1) log
      → All IsText (texts_of (put_by log))
  unfolding flatten
  texts_of-IsText [] h = tt
  texts_of-IsText ((i, x) ∷ log) (h, hs) =
      All-append IsText (pieces x) (texts_of (put_by log))
        (All-append IsText (header B x.level x.time) x.messages (header-IsText B x.level x.time h.0)
          h.1)
        (texts_of-IsText log hs)

  -- `log_mtx_` and the threads before any of them logs.
  abbrev pub before_logging : LogLevels → (ℕ → List Statement) → Threads
  before_logging verbosity statements = start λ i. map pieces (kept verbosity (statements i))

  -- Threads log at the same time, each any statements with texts of bytes, on a good stream over
  -- two different buffers that never fail, and run in any order: whenever the lock is free, both
  -- buffers have got whole lines, one after the other. The lines are those of a log of statements.
  -- The log has those of each thread in the thread's order, without those below the verbosity, up
  -- to those that the thread has still to make.
  pub threads-Wrote :
      (verbosity : LogLevels) (statements : ℕ → List Statement) (t : TeeBuf) (s : Stream B)
      (now : Threads)
      → ((c : ℕ) (b : B.State) → is_eof (B.sputc c b).0 ≡ false)
      → t.sb1 ≢ t.sb2
      → s.is_good ≡ true
      → ((i : ℕ) → All IsTextual (statements i))
      → Reach (before_logging verbosity statements) now
      → now.owner ≡ none
      → (log : List (ℕ × Statement)) × (rest : ℕ → List Statement) × Wrote B t
          (lines_of log)
          s
          (put_all B t now.output s)
        × ((i : ℕ) → statements_of i log ++ rest i ≡ kept verbosity (statements i))
        × ((i : ℕ) → map pieces (rest i) ≡ (now.threads i).todo)
  threads-Wrote verbosity statements t s now never apart good textual reach free =
      let (log, out, served) =
        output_unmixed (λ i. map pieces (kept verbosity (statements i))) now reach free in
      let k : Entries pieces IsTextual log (λ i. kept verbosity (statements i))
          (λ i. (now.threads i).todo) =
        log-Entries pieces IsTextual log (λ i. kept verbosity (statements i))
          (λ i. (now.threads i).todo) served
          (λ i. kept-All IsTextual verbosity (statements i) (textual i)) in
      let put : now.output ≡ texts_of (put_by k.entries) = out ∙ ap texts_of (sym k.texts) in
      let wrote : Wrote B t (flatten (texts_of (put_by k.entries))) s
          (put_all B t (texts_of (put_by k.entries)) s) =
        put_all-Wrote B never t apart (texts_of (put_by k.entries)) s
          (texts_of-IsText k.entries k.all) good in
      let lines : Wrote B t (lines_of k.entries) s (put_all B t (texts_of (put_by k.entries)) s) =
        subst (λ b. Wrote B t b s (put_all B t (texts_of (put_by k.entries)) s))
          (texts_of-lines k.entries) wrote in
      let whole : Wrote B t (lines_of k.entries) s (put_all B t now.output s) =
        subst (λ o. Wrote B t (lines_of k.entries) s (put_all B t o s)) (sym put) lines in
      (k.entries, k.rest, whole, k.whole, k.left)
