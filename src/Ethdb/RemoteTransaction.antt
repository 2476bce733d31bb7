-- ===== src/Ethdb/RemoteTransaction.antt =====
-- silkoroutine/ethdb/kv/remote_transaction.hpp and .cpp, and remote_database.hpp.
pub mod Invariant
pub mod Sharing
pub mod Closing
pub mod Stale
pub mod Termination
use silkoroutine.Common.{ℕ, Bytes, [], ◌∷◌, none, some}
use silkoroutine.Kv.Awaitables.{async_close}
use silkoroutine.Ethdb.TableMap.{TableMap, find, insert}
use silkoroutine.Ethdb.Session.{Coroutine, value, pure, ◌>>=◌, ◌>>◌, await_id}
use silkoroutine.Ethdb.RemoteCursor.{new_cursor, open_cursor, close_cursor}

abbrev get_cursors : Coroutine (TableMap ℕ)
get_cursors s = (value s.cursors, s)

abbrev set_cursors : TableMap ℕ → Coroutine (Unit {0})
set_cursors m s = (value tt, record s { cursors = m })

unfoldable pub open_new : Bytes → Coroutine ℕ
open_new table = do
  cursor ← new_cursor
  open_cursor cursor table
  cursors ← get_cursors
  set_cursors (insert table cursor cursors)
  pure cursor

-- `cursor(table)`: the shared pointer is the address of the cursor.
unfoldable pub cursor_for : Bytes → Coroutine ℕ
cursor_for table s = elim (find table s.cursors) [
  | some cursor ↦ (value cursor, s)
  | none ↦ open_new table s
]

-- The loop over `cursors_`.
unfoldable pub close_each : TableMap ℕ → Coroutine (Unit {0})
close_each [] = pure tt
close_each ((table, cursor) ∷ rest) = do close_cursor cursor; close_each rest

unfoldable pub close : Coroutine (Unit {0})
close = do
  cursors ← get_cursors
  close_each cursors
  set_cursors []
  _ ← await_id async_close
  pure tt
