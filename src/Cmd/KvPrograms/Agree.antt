-- ===== src/Cmd/KvPrograms/Agree.antt =====
-- The programs do the same for the same flags, where the server answers.
use silkoroutine.Common.{
  Bytes, List, Option, none, some, ◌≡◌, ◌≢◌, refl, ◌∙◌, pos, ℤ, Option-cases, inl, inr, arith,
}
use silkoroutine.Remote.{Cursor}
use silkoroutine.Cmd.KvFlags.{Flags, check, check_timeout}
use silkoroutine.Cmd.KvSeek
use silkoroutine.Cmd.KvSeek.Outcomes
use silkoroutine.Cmd.KvSeekAsync
use silkoroutine.Cmd.KvSeekCallback
use silkoroutine.Cmd.KvSeekCoroutines
use silkoroutine.Cmd.KvSeekCoroutines.Outcomes.{main-answered}
use silkoroutine.Cmd.KvPrograms.{
  Server, Report, blocking, with_queue, with_asio, with_callbacks, with_coroutines, last_reactor,
}

-- The test that only some programs make never fails.
check_timeout-check : (f : Flags) → check_timeout f ≡ check f
unfolding check_timeout
check_timeout-check f = elim (Option-cases (check f)) [
  | inl e ↦ rw (e, check_timeout) refl
  | inr (key, e) ↦ rw (e, check_timeout) (ground arith)
]

-- The other programs, beside the blocking one.
pub record SameAsBlocking (f : Flags) (v : Server) : Type 0 where
  pub queue : with_queue f v ≡ blocking f v
  pub asio : with_asio f v ≡ blocking f v
  pub callbacks : with_callbacks f v ≡ blocking f v
  pub coroutines : with_coroutines f v ≡ ((blocking f v).code, (blocking f v).messages)

both :
    (r : Report) {code : Option ℤ} {messages : List Cursor}
    → code ≡ r.code
    → messages ≡ r.messages
    → ◌≡◌ {A = Option ℤ × List Cursor} (code, messages) (r.code, r.messages)
both r p q = λ i. (p i, q i)

rejected : (f : Flags) (v : Server) → check f ≡ none → check_timeout f ≡ none → SameAsBlocking f v
unfolding KvSeek.main KvSeekAsync.main KvSeekAsync.main_asio KvSeekCallback.main
    KvSeekCoroutines.main last_reactor
rejected f v e e' = record {
  queue = rw (e, KvSeek.main) (rw (e', KvSeekAsync.main) refl);
  asio = rw (e, KvSeek.main) (rw (e', KvSeekAsync.main_asio) refl);
  callbacks = rw (e, KvSeek.main) (rw (e', KvSeekCallback.main) (rw (e', last_reactor) refl));
  coroutines =
      rw (e', KvSeekCoroutines.main)
        (both (blocking f v) (rw (e, blocking, KvSeek.main) refl)
          (rw (e, blocking, KvSeek.main) refl));
}

coroutines_report :
    (f : Flags) (v : Server) (key : Bytes)
    → check_timeout f ≡ some key
    → v.opened.cursorid ≢ 0
    → with_coroutines f v ≡ (some (pos 0), Outcomes.requests f.table key v.opened)
coroutines_report f v key e ne =
    let (t, run, calls, _) = main-answered f key v.opened v.found v.closed e ne in
    rw run (rw calls refl)

accepted :
    (f : Flags) (v : Server) (key : Bytes)
    → check f ≡ some key
    → check_timeout f ≡ some key
    → v.opened.cursorid ≢ 0
    → SameAsBlocking f v
unfolding KvSeek.main KvSeekAsync.main KvSeekAsync.main_asio KvSeekCallback.main last_reactor
    KvSeek.kv_seek KvSeekAsync.kv_seek KvSeekAsync.kv_seek_async KvSeekCallback.deliver_all
    KvSeekCallback.deliver KvSeekCallback.happen KvSeekCallback.written KvSeekCallback.received
accepted f v key e e' ne = record {
  queue = rw (e, KvSeek.main) (rw (e', KvSeekAsync.main) refl);
  asio = rw (e, KvSeek.main) (rw (e', KvSeekAsync.main_asio) refl);
  callbacks = rw (e, KvSeek.main) (rw (e', KvSeekCallback.main) (rw (e', last_reactor) refl));
  coroutines =
      coroutines_report f v key e' ne
      ∙ both (blocking f v) (rw (e, blocking, KvSeek.main) refl)
          (rw (e, blocking, KvSeek.main) refl);
}

-- For all flags, where every operation of gRPC goes well, and for a server that answers an OPEN, a
-- SEEK and a CLOSE, the first with an id other than 0: the five programs return the same code and
-- send the same messages in the same order. The four that use gRPC themselves print the same lines
-- as well.
pub programs-SameAsBlocking : (f : Flags) (v : Server) → v.opened.cursorid ≢ 0 → SameAsBlocking f v
programs-SameAsBlocking f v ne = elim (Option-cases (check f)) [
  | inl e ↦ rejected f v e (check_timeout-check f ∙ e)
  | inr (key, e) ↦ accepted f v key e (check_timeout-check f ∙ e) ne
]
