-- ===== src/Tests/Database.antt =====
-- Runs of the cursors and transactions: two tables, and a server that opens cursors under ids of
-- its own.
use silkoroutine.Common.{
  ℕ, suc, ◌+◌, Option, Bytes, List, [], ◌∷◌, ◌++◌, some, ◌≡◌, refl, All, get_elem?, codes, arith,
}
use silkoroutine.Remote.{Pair, open_message, seek_message}
use silkoroutine.Kv.Reactor.{start_call}
use silkoroutine.Kv.World.{io_error}
use silkoroutine.Kv.Exec.{Event}
use silkoroutine.Kv.Awaitables.{async_open_cursor, async_seek, async_close_cursor, async_close}
use silkoroutine.Kv.Exchange.{answered, unread, calls_of}
use silkoroutine.Ethdb.TableMap.{find, compare_bytes}
use silkoroutine.Ethdb.Session.{
  Session, Result, begin, value, thrown, continue, pure, await_pair, drop,
}
use silkoroutine.Ethdb.Session.Answered.{Spoke}
use silkoroutine.Ethdb.RemoteCursor.{seek, seek_key, key_value}
use silkoroutine.Ethdb.RemoteCursor.Seek.{
  seek_calls, seek_lem, seek_interrupted, seek_ignores_table,
}
use silkoroutine.Ethdb.RemoteTransaction.{close, cursor_for}
use silkoroutine.Ethdb.RemoteTransaction.Stale.{cursor_for-seek}
use silkoroutine.Ethdb.RemoteTransaction.Invariant.{
  IsValid, Call, cursor_for_calls, seek_key_calls, close_calls, run, run-IsValid,
}
use silkoroutine.Ethdb.RemoteTransaction.Closing.{IsClosed, close-IsClosed}
use silkoroutine.Ethdb.Service.{
  Op, open_op, seek_op, next_op, seek_table_op, close_op, perform_all, Service, Step, Exchanges,
  spec_cursor, spec_perform, spec_perform_all,
}
use silkoroutine.Ethdb.Service.View.{view}
use silkoroutine.Ethdb.Service.Exchanges.{script, calls_in}
use silkoroutine.Ethdb.Service.Refines.{perform_all-spec_perform_all}
use silkoroutine.Ethdb.Service.Faults.{Fault, not_read, failing, result_of, calls_made}
use silkoroutine.Ethdb.Service.Faults.Stops.{perform_all-stops}
use silkoroutine.Util.{KeyValue}
use silkoroutine.Ethdb.RemoteTransaction.Termination.{closings, all_calls, close-answered}

abbrev pub headers : Bytes
headers = codes "h"

abbrev pub bodies : Bytes
bodies = codes "bb"

abbrev pub five : Pair
five = record { k = []; v = []; cursorid = 5 }

abbrev pub found : Pair
found = record { k = codes "ab"; v = codes "cd"; cursorid = 5 }

abbrev pub fresh : Session
fresh = begin (answered (async_open_cursor headers) five ∷ [])

abbrev some_calls : List Call
some_calls =
    cursor_for_calls headers
    ∷ cursor_for_calls bodies
    ∷ seek_key_calls 0 []
    ∷ close_calls
    ∷ cursor_for_calls headers
    ∷ []

run-IsValid_example : IsValid (run fresh some_calls)
run-IsValid_example = run-IsValid (answered (async_open_cursor headers) five ∷ []) some_calls

-- Two cursors, of which one is open, and a server that answers.
abbrev two_cursors : Session
two_cursors =
    record (begin (answered (async_close_cursor 5) found ∷ answered async_close found ∷ [])) {
      heap = 5 ∷ 0 ∷ [];
      cursors = (bodies, 1) ∷ (headers, 0) ∷ [];
    }

two_cursors-IsValid : IsValid two_cursors
two_cursors-IsValid = record {
  bounded = (omega arith, (omega arith, tt));
  distinct = ((omega arith, tt), (tt, tt));
}

two_cursors-closings : closings two_cursors.heap two_cursors.cursors ≡ async_close_cursor 5 ∷ []
unfolding closings
two_cursors-closings = refl

close-answered_example :
    (t : Session) × (close two_cursors ≡ (value tt, t))
    × (t.world.reactor.calls
        ≡ two_cursors.world.reactor.calls
          ++ all_calls (closings two_cursors.heap two_cursors.cursors ++ async_close ∷ []))
    × (t.cursors ≡ [])
    × (t.events ≡ [])
unfolding closings
close-answered_example =
    close-answered (λ _. found) found [] two_cursors two_cursors-IsValid refl refl

abbrev closed_session : Session
closed_session = close-answered_example.0

close-IsClosed_example :
    All (λ (e : Bytes × ℕ). IsClosed e.1 closed_session) two_cursors.cursors
    × (closed_session.cursors ≡ [])
close-IsClosed_example = close-IsClosed two_cursors closed_session close-answered_example.1

-- One cursor that is closed.
abbrev free : List (List Event) → Session
free events = record (begin events) { heap = 0 ∷ [] }

abbrev whole_seek : Session
whole_seek = free (
    answered (async_open_cursor headers) five
    ∷ answered (async_seek 5 (codes "ab")) found
    ∷ answered (async_close_cursor 5) five
    ∷ [])

seek_lem_example :
    (t : Session) × (seek 0 headers (codes "ab") whole_seek ≡ (value (key_value found), t))
    × Spoke (seek_calls headers 5 (codes "ab")) [] whole_seek t
    × (t.heap ≡ 0 ∷ [])
seek_lem_example =
    seek_lem 0 headers (codes "ab") five found five [] whole_seek refl refl (omega arith) refl

abbrev cut_seek : Session
cut_seek =
    free (answered (async_open_cursor headers) five ∷ unread (async_seek 5 (codes "ab")) found ∷ [])

seek_interrupted_example :
    (t : Session) × (seek 0 headers (codes "ab") cut_seek
      ≡ (thrown (io_error "read failed in SEEK"), t))
    × (get_elem? t.heap 0 ≡ some 5)
    × (t.world.reactor.calls
        ≡ cut_seek.world.reactor.calls
          ++ (calls_of (async_open_cursor headers) ++ calls_of (async_seek 5 (codes "ab"))))
    × (t.events ≡ [])
seek_interrupted_example =
    seek_interrupted 0 headers (codes "ab") five found five [] cut_seek refl refl (omega arith) refl

seek_ignores_table_example :
    seek 0 headers (codes "ab") two_cursors ≡ seek 0 bodies (codes "ab") two_cursors
seek_ignores_table_example =
    seek_ignores_table 0 headers bodies (codes "ab") 5 two_cursors refl (omega arith)

-- A service that numbers its answers, from 5 on, and gives the number as the id.
abbrev pub numbering : Service
numbering = record {
  State = ℕ;
  answer = λ m n. (record { k = codes "k"; v = codes "v"; cursorid = n + 5 }, suc n);
}

abbrev six_ops : List Op
six_ops =
    seek_op headers (codes "ab")
    ∷ open_op bodies
    ∷ next_op headers
    ∷ seek_table_op bodies (codes "x")
    ∷ close_op
    ∷ open_op headers
    ∷ []

abbrev what_is_due : Step numbering (List (Option KeyValue))
what_is_due = spec_perform_all numbering six_ops (record { ids = []; service = 0 })

abbrev what_is_done : Result (List (Option KeyValue)) × Session
what_is_done = perform_all six_ops (begin (script what_is_due.exchanges))

perform_all-spec_perform_all_example :
    (what_is_done.0 ≡ value what_is_due.result)
    × (what_is_done.1.world.reactor.calls ≡ start_call ∷ calls_in what_is_due.exchanges)
    × (view what_is_done.1.heap what_is_done.1.cursors ≡ what_is_due.spec.ids)
    × (what_is_done.1.events ≡ [])
perform_all-spec_perform_all_example = perform_all-spec_perform_all numbering six_ops 0

-- A cursor of the map, with which a seek by table was made.
abbrev cached : Session
cached = record whole_seek { cursors = (headers, 0) ∷ [] }

abbrev sought :
    (t : Session) × (seek 0 headers (codes "ab") cached ≡ (value (key_value found), t))
    × Spoke (seek_calls headers 5 (codes "ab")) [] cached t
    × (t.heap ≡ 0 ∷ [])
sought = seek_lem 0 headers (codes "ab") five found five [] cached refl refl (omega arith) refl

cached-find : find headers cached.cursors ≡ some 0
unfolding find compare_bytes
cached-find = refl

cursor_for-seek_example :
    (cursor_for headers sought.0 ≡ (value 0, sought.0))
    × IsClosed 0 sought.0
    × ((k : Bytes)
        → seek_key 0 k sought.0
          ≡ continue (λ p. pure (key_value p)) (await_pair (async_seek 0 k) sought.0))
cursor_for-seek_example =
    cursor_for-seek headers (codes "ab") 0 cached sought.0 (key_value found) cached-find sought.1

-- The second of the exchanges is a SEEK, whose answer is not read.
abbrev pub first_exchanges : Exchanges
first_exchanges = (async_open_cursor headers, (numbering.answer (open_message headers) 0).0) ∷ []

abbrev pub second_pair : Pair
second_pair = (numbering.answer (seek_message 5 (codes "ab")) 1).0

abbrev unread_seek : Fault
unread_seek = not_read second_pair

exchanges_due :
    what_is_due.exchanges
    ≡ first_exchanges ++ (async_seek 5 (codes "ab"), second_pair) ∷ drop 2 (what_is_due.exchanges)
unfolding spec_perform_all spec_perform spec_cursor find
exchanges_due = refl

abbrev what_is_left : Result (List (Option KeyValue)) × Session
what_is_left =
    perform_all six_ops
      (begin (script first_exchanges ++ failing unread_seek (async_seek 5 (codes "ab")) ∷ []))

perform_all-stops_example :
    (what_is_left.0 ≡ result_of unread_seek (async_seek 5 (codes "ab")))
    × (what_is_left.1.world.reactor.calls
        ≡ start_call
          ∷ (calls_in first_exchanges ++ calls_made unread_seek (async_seek 5 (codes "ab"))))
    × (what_is_left.1.events ≡ [])
perform_all-stops_example =
    perform_all-stops numbering six_ops 0 first_exchanges (async_seek 5 (codes "ab")) second_pair
      (drop 2 (what_is_due.exchanges)) unread_seek [] exchanges_due
