-- ===== src/Cmd/KvSeekCoroutines/Outcomes.antt =====
-- The whole program, on a server that answers.
use silkoroutine.Common.{ℕ, Bytes, List, [], ◌∷◌, ◌≡◌, ◌≢◌, refl, ◌∙◌, some, pos, arith, get_elem?}
use silkoroutine.Util.{KeyValue}
use silkoroutine.Remote.{Pair}
use silkoroutine.Kv.Reactor.{start_call}
use silkoroutine.Kv.Exec.{Event}
use silkoroutine.Kv.Awaitables.{
  Request, async_open_cursor, async_seek, async_close_cursor, async_close,
}
use silkoroutine.Kv.Exchange.{answered}
use silkoroutine.Ethdb.Session.{Session, Result, value, begin}
use silkoroutine.Ethdb.TableMap.{insert, find}
use silkoroutine.Ethdb.RemoteCursor.{key_value}
use silkoroutine.Ethdb.RemoteCursor.Answered.{seek_key-answered}
use silkoroutine.Ethdb.RemoteTransaction.Invariant.{IsValid}
use silkoroutine.Ethdb.RemoteTransaction.Sharing.{cursor_for_new}
use silkoroutine.Ethdb.RemoteTransaction.Termination.{
  all_calls, closings, closings_open, close-answered,
}
use silkoroutine.Cmd.KvFlags.{Flags, check_timeout}
use silkoroutine.Ethdb.Interface.Remote.{Sessions, remote_database, within}
use silkoroutine.Ethdb.Interface.Remote
use silkoroutine.Cmd.KvSeekCoroutines.{kv_seek, ending, main, exited, before_begin}

-- What the program asks of the server, which opens the cursor under the id `n`.
abbrev pub requests : Bytes → ℕ → Bytes → List Request
requests table n key =
    async_open_cursor table ∷ async_seek n key ∷ async_close_cursor n ∷ async_close ∷ []

module _ (table key : Bytes) (p q c : Pair) where
  abbrev pub events : List (List Event)
  events =
      answered (async_open_cursor table) p
      ∷ answered (async_seek p.cursorid key) q
      ∷ answered (async_close_cursor p.cursorid) c
      ∷ answered async_close c
      ∷ []

  kv_seek-answered :
      p.cursorid ≢ 0
      → (t : Session) × (kv_seek remote_database table key (before_begin events)
          ≡ (value (p.cursorid, key_value q), record { begun = t ∷ []; to_come = [] }))
        × (t.world.reactor.calls ≡ start_call ∷ all_calls (requests table p.cursorid key))
        × (t.events ≡ [])
  unfolding kv_seek Remote.begin within insert find closings
  kv_seek-answered ne =
      let n : ℕ = p.cursorid in
      let (s1, run1, heap1, calls1, posted1, events1, cursors1) =
        cursor_for_new table p _ (begin events) refl refl refl in
      let held1 : get_elem? s1.heap 0 ≡ some n = rw heap1 refl in
      let (s2, run2, spoke2, heap2) = seek_key-answered 0 q _ s1 posted1 n key held1 events1 in
      let cursors2 : s2.cursors ≡ (table, 0) ∷ [] = spoke2.cursors ∙ cursors1 in
      let valid : IsValid s2 = record {
        bounded = rw (cursors2, heap2, heap1) (omega arith, tt);
        distinct = rw cursors2 (tt, tt);
      } in
      let todo : closings s2.heap s2.cursors ≡ async_close_cursor n ∷ [] =
        rw (cursors2) (closings_open s2.heap table 0 n [] (rw heap2 held1) ne) in
      let (s3, run3, calls3, _, events3) =
        close-answered (λ _. c) c [] s2 valid spoke2.posted (spoke2.events ∙ rw todo refl) in
      (
        s3,
        rw (run1, held1, run2, run3) refl,
        (calls3 ∙ simp (todo, spoke2.calls, calls1) refl),
        events3,
      )

main-some :
    (f : Flags) (k : Bytes) (es : List (List Event)) (r : Result (ℕ × KeyValue) × Sessions)
    → check_timeout f ≡ some k
    → kv_seek remote_database f.table k (before_begin es) ≡ r
    → main f es ≡ (ending r.0, r.1)
unfolding main
main-some f k es r h e = rw (h, main) (rw e refl)

-- With good flags, and a server that answers with an id other than 0, the program returns 0. It has
-- begun one transaction, has started its call, has sent OPEN, SEEK and CLOSE with that id, each
-- with one read, and has ended the writes, and waits for nothing more.
pub main-answered :
    (f : Flags) (key : Bytes) (p q c : Pair)
    → check_timeout f ≡ some key
    → p.cursorid ≢ 0
    → (t : Session) × (main f (events f.table key p q c)
        ≡ (exited (pos 0), record { begun = t ∷ []; to_come = [] }))
      × (t.world.reactor.calls ≡ start_call ∷ all_calls (requests f.table p.cursorid key))
      × (t.events ≡ [])
main-answered f key p q c h ne =
    let (t, run, calls, rest) = kv_seek-answered f.table key p q c ne in
    (t, main-some f key _ _ h run, calls, rest)
