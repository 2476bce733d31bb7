-- ===== src/Cmd/KvPrograms.antt =====
-- The five programs cmd/kv_seek*.cpp side by side: what each comes to with one server.
pub mod Agree
use silkoroutine.Common.{ℕ, true, List, [], ◌∷◌, ◌++◌, Option, none, some, ℤ}
use silkoroutine.Remote.{Cursor, Pair, empty_pair}
use silkoroutine.Kv.World.{Item}
use silkoroutine.Kv.Reactor.{GrpcCall, start_write}
use silkoroutine.Ethdb.Session.{Session}
use silkoroutine.Cmd.KvFlags.{Flags, check_timeout}
use silkoroutine.Cmd.KvSeek
use silkoroutine.Cmd.KvSeek.{Stream}
use silkoroutine.Cmd.KvSeekAsync
use silkoroutine.Cmd.KvSeekAsync.{Started, Queue, new_queue, write, write_last}
use silkoroutine.Cmd.KvSeekCallback
use silkoroutine.Cmd.KvSeekCallback.{
  Reactor, write_done, read_done, Next, comes, impossible, threw, deliver_all, started,
}
use silkoroutine.Cmd.KvSeekCoroutines
use silkoroutine.Cmd.KvSeekCoroutines.{End, exited, hangs, uncaught, faulted}
use silkoroutine.Cmd.KvSeekCoroutines.Outcomes.{events}

-- What the server answers to an OPEN, a SEEK and a CLOSE.
pub record Server : Type 0 where
  pub opened : Pair
  pub found : Pair
  pub closed : Pair

-- What a program comes to: its exit code, none if it does not return one, the messages that it sent
-- to the server and the lines that it printed.
pub record Report : Type 0 where
  pub code : Option ℤ
  pub messages : List Cursor
  pub lines : List (List Item)

-- kv_seek.cpp, on a stream that takes each message.
abbrev stream : Server → Stream
stream v = record {
  writes = true ∷ true ∷ true ∷ [];
  reads = some v.opened ∷ some v.found ∷ some v.closed ∷ [];
  sent = [];
  shown = [];
}

abbrev pub blocking : Flags → Server → Report
blocking f v =
    let (code, t) = KvSeek.main f (stream v) in
    record { code = some code; messages = t.sent; lines = t.shown }

-- kv_seek_async.cpp and kv_seek_async_asio.cpp, on a queue that gives the event of each operation.
abbrev event : ℕ → Pair → Option KvSeekAsync.Event
event tag p = some (record { tag = tag; ok = true; pair = p; status_ok = true })

abbrev exchange : Server → List (Option KvSeekAsync.Event)
exchange v =
    event 1 empty_pair
    ∷ event 1 v.opened
    ∷ event 2 empty_pair
    ∷ event 2 v.found
    ∷ event 3 empty_pair
    ∷ event 3 v.closed
    ∷ []

abbrev written_by : List Started → List Cursor
written_by [] = []
written_by (write m ∷ cs) = m ∷ written_by cs
written_by (write_last m ∷ cs) = m ∷ written_by cs
written_by (_ ∷ cs) = written_by cs

abbrev of_queue : ℤ × Queue → Report
of_queue (code, t) = record { code = some code; messages = written_by t.started; lines = t.shown }

abbrev pub with_queue : Flags → Server → Report
with_queue f v = of_queue (KvSeekAsync.main f (new_queue (event 0 empty_pair ∷ exchange v)))

abbrev pub with_asio : Flags → Server → Report
with_asio f v =
    of_queue (KvSeekAsync.main_asio f (new_queue (exchange v ++ event 4 empty_pair ∷ [])))

-- kv_seek_async_callback.cpp, whose reactor is made only if the flags are right.
abbrev callbacks : Server → List KvSeekCallback.Event
callbacks v =
    write_done true
    ∷ read_done (some v.opened)
    ∷ write_done true
    ∷ read_done (some v.found)
    ∷ write_done true
    ∷ read_done (some v.closed)
    ∷ []

abbrev reactor_in : Next Reactor → Option Reactor
reactor_in (comes r) = some r
reactor_in impossible = none
reactor_in threw = none

abbrev code_in : Next (Option ℤ) → Option ℤ
code_in (comes code) = code
code_in impossible = none
code_in threw = none

unfoldable pub last_reactor : Flags → List KvSeekCallback.Event → Option Reactor
unfolding deliver_all
last_reactor f es = elim (check_timeout f) [
  | none ↦ none
  | some key ↦ reactor_in (deliver_all f.table key es (started f.table))
]

abbrev of_reactor : Option ℤ → Option Reactor → Report
of_reactor code none = record { code = code; messages = []; lines = [] }
of_reactor code (some r) = record { code = code; messages = r.sent; lines = r.shown }

abbrev pub with_callbacks : Flags → Server → Report
with_callbacks f v =
    of_reactor (code_in (KvSeekCallback.main f (callbacks v))) (last_reactor f (callbacks v))

-- kv_seek_async_coroutines.cpp. Its lines are not in the model.
abbrev code_of : End → Option ℤ
code_of (exited c) = some c
code_of hangs = none
code_of (uncaught e) = none
code_of faulted = none

abbrev pub written_in : List GrpcCall → List Cursor
written_in [] = []
written_in (start_write m ∷ cs) = m ∷ written_in cs
written_in (_ ∷ cs) = written_in cs

abbrev pub written_in_all : List Session → List Cursor
written_in_all [] = []
written_in_all (s ∷ ss) = written_in s.world.reactor.calls ++ written_in_all ss

abbrev pub with_coroutines : Flags → Server → Option ℤ × List Cursor
with_coroutines f v =
    let (end, t) = KvSeekCoroutines.main f (events f.table [] v.opened v.found v.closed) in
    (code_of end, written_in_all t.begun)
