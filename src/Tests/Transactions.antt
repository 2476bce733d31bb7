-- ===== src/Tests/Transactions.antt =====
-- Runs of a database with two transactions, and of a client of its interface.
use silkoroutine.Common.{List, true, [], ◌∷◌, ◌≡◌, refl, All, codes}
use silkoroutine.Kv.Awaitables.{async_open_cursor, async_seek, async_close_cursor, async_close}
use silkoroutine.Kv.Exchange.{answered}
use silkoroutine.Ethdb.TableMap.{find, insert}
use silkoroutine.Ethdb.Session.{Session, begin, value}
use silkoroutine.Ethdb.RemoteTransaction.{cursor_for, close}
use silkoroutine.Ethdb.Database.{
  new_database, SharedEvent, begins, starts, write_done, read_done, run_one,
}
use silkoroutine.Ethdb.Database
use silkoroutine.Ethdb.Database.Queue.{share}
use silkoroutine.Ethdb.RemoteTransaction
use silkoroutine.Ethdb.RemoteCursor
use silkoroutine.Ethdb.Session
use silkoroutine.Kv.Awaitables.{initiate}
use silkoroutine.Kv.Exec.{drive}
use silkoroutine.Ethdb.Interface.{Cursor}
use silkoroutine.Ethdb.Interface.Remote.{Sessions, within}
use silkoroutine.Ethdb.Interface.Remote
use silkoroutine.Ethdb.Interface.Closing.{use_seek_key, after}
use silkoroutine.Ethdb.Interface.RemoteCloses.{begun_by, client_of_remote, close-client_of_remote}
use silkoroutine.Ethdb.Interface.Client.{ClientCall, asks, uses, run_client}
use silkoroutine.Ethdb.Session.{await, resume}
use silkoroutine.Ethdb.Database.{RemoteDatabase}
use silkoroutine.Kv.World.{Outcome, ok, raised, fault}
use silkoroutine.Ethdb.Database.Isolation.{Shows, run-Shows}
use silkoroutine.Tests.Database.{headers, bodies, five, found}

-- Two transactions, each with a cursor that it opens, at one time.
abbrev two_at_once : List SharedEvent
two_at_once =
    begins
    ∷ begins
    ∷ starts 0 (async_open_cursor headers) 10
    ∷ starts 1 (async_open_cursor bodies) 11
    ∷ write_done 1 true
    ∷ write_done 0 true
    ∷ read_done 1 true found
    ∷ read_done 0 true five
    ∷ run_one
    ∷ run_one
    ∷ []

run-Shows_example :
    Shows
      (λ i. share i two_at_once new_database)
      new_database
      (Database.run two_at_once new_database)
run-Shows_example = run-Shows two_at_once

-- One transaction, whose server answers an OPEN, a SEEK, a CLOSE and the end of the call.
abbrev one_to_come : Sessions
one_to_come = record {
  begun = [];
  to_come =
      (answered (async_open_cursor headers) five
        ∷ answered (async_seek 5 (codes "ab")) found
        ∷ answered (async_close_cursor 5) five
        ∷ answered async_close five
        ∷ [])
      ∷ [];
}

abbrev open_and_seek : List ClientCall
open_and_seek = asks headers ∷ uses 0 (use_seek_key (codes "ab")) ∷ []

abbrev open_and_sought : List (Cursor Sessions) × Sessions
open_and_sought = client_of_remote open_and_seek one_to_come

abbrev all_done : Sessions
all_done = ((begun_by one_to_come).close open_and_sought.1).1

all_done-closed : (begun_by one_to_come).close open_and_sought.1 ≡ (value tt, all_done)
unfolding client_of_remote Remote.begin within run_client after RemoteTransaction.cursor_for find
    RemoteTransaction.open_new RemoteCursor.new_cursor RemoteCursor.open_cursor Session.await
    initiate drive close RemoteTransaction.close_each RemoteCursor.seek_key insert
    RemoteCursor.close_cursor
all_done-closed = refl

close-client_of_remote_example :
    All (λ c. c.cursor_id all_done ≡ (value 0, all_done)) open_and_sought.0
close-client_of_remote_example =
    close-client_of_remote open_and_seek one_to_come all_done all_done-closed

-- The handler 0 of each transaction is its coroutine.
abbrev two_coroutines : List SharedEvent
two_coroutines =
    begins
    ∷ begins
    ∷ starts 0 (async_open_cursor headers) 0
    ∷ starts 1 (async_open_cursor bodies) 0
    ∷ write_done 1 true
    ∷ write_done 0 true
    ∷ read_done 1 true found
    ∷ read_done 0 true five
    ∷ run_one
    ∷ run_one
    ∷ []

abbrev database_of : Outcome RemoteDatabase → RemoteDatabase
database_of (ok d) = d
database_of (raised e d) = d
database_of fault = new_database

abbrev both_answered : RemoteDatabase
both_answered = database_of (Database.run two_coroutines new_database)
