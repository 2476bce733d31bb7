-- ===== src/Ethdb/RemoteCursor.antt =====
-- silkoroutine/ethdb/kv/remote_cursor.hpp. The log lines and the time that they report have no
-- effect on a cursor, and are left out.
pub mod Answered
pub mod Any
pub mod Seek
use silkoroutine.Common.{ℕ, Bytes, [], ◌∷◌, ◌++◌, ◌==◌, if◌then◌else◌, length}
use silkoroutine.Util.{KeyValue, bytes_of_string}
use silkoroutine.Remote.{Pair}
use silkoroutine.Kv.Awaitables.{async_open_cursor, async_seek, async_next, async_close_cursor}
use silkoroutine.Ethdb.Session.{
  Coroutine, value, pure, ◌>>=◌, ◌>>◌, await_id, await_pair, get_cursor_id, set_cursor_id,
}

-- `RemoteCursor(kv_awaitable)`: a new object, with `cursor_id_{0}`.
unfoldable pub new_cursor : Coroutine ℕ
new_cursor s = (value (length s.heap), record s { heap = s.heap ++ 0 ∷ [] })

unfoldable pub open_cursor : ℕ → Bytes → Coroutine (Unit {0})
open_cursor self table_name = do
  cursor_id ← get_cursor_id self
  if cursor_id == 0
      then (do n ← await_id (async_open_cursor table_name); set_cursor_id self n)
      else pure tt

abbrev pub key_value : Pair → KeyValue
key_value p = record { key = bytes_of_string p.k; value = bytes_of_string p.v }

unfoldable pub seek_key : ℕ → Bytes → Coroutine KeyValue
seek_key self seek_key_bytes = do
  cursor_id ← get_cursor_id self
  seek_pair ← await_pair (async_seek cursor_id seek_key_bytes)
  pure (key_value seek_pair)

unfoldable pub next : ℕ → Coroutine KeyValue
next self = do
  cursor_id ← get_cursor_id self
  next_pair ← await_pair (async_next cursor_id)
  pure (key_value next_pair)

unfoldable pub close_cursor : ℕ → Coroutine (Unit {0})
close_cursor self = do
  cursor_id ← get_cursor_id self
  if cursor_id == 0
      then pure tt
      else (do _ ← await_id (async_close_cursor cursor_id); set_cursor_id self 0)

-- `seek(table_name, seek_key)`.
unfoldable pub seek : ℕ → Bytes → Bytes → Coroutine KeyValue
unfolding open_cursor seek_key close_cursor
seek self table_name seek_key_bytes = do
  open_cursor self table_name
  kv_pair ← seek_key self seek_key_bytes
  close_cursor self
  pure kv_pair
