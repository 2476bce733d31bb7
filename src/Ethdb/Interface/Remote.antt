-- ===== src/Ethdb/Interface/Remote.antt =====
-- The classes of remote_cursor.hpp, remote_transaction.hpp and remote_database.hpp as what they
-- derive from.
use silkoroutine.Common.{ℕ, List, [], ◌∷◌, ◌++◌, Option, none, some, length, get_elem?, set}
use silkoroutine.Kv.Exec.{Event}
use silkoroutine.Ethdb.Session.{
  Session, Routine, Result, undefined, value, pure, ◌>>=◌, get_cursor_id, upcoming, later,
}
use silkoroutine.Ethdb.Session
use silkoroutine.Ethdb.RemoteCursor
use silkoroutine.Ethdb.RemoteTransaction
use silkoroutine.Ethdb.Interface.{Cursor, Transaction, Database}

abbrev pub remote_cursor : ℕ → Cursor Session
remote_cursor self = record {
  cursor_id = get_cursor_id self;
  seek = RemoteCursor.seek self;
  open_cursor = RemoteCursor.open_cursor self;
  seek_key = RemoteCursor.seek_key self;
  next = RemoteCursor.next self;
  close_cursor = RemoteCursor.close_cursor self;
}

abbrev pub remote_transaction : Transaction Session
remote_transaction = record {
  cursor = RemoteCursor.new_cursor >>= λ self. pure (remote_cursor self);
  cursor_for = λ table. RemoteTransaction.cursor_for table >>= λ self. pure (remote_cursor self);
  close = RemoteTransaction.close;
}

-- The transactions of a database, by their numbers, and what gRPC and the context do during the
-- `co_await`s of those to come.
pub record Sessions : Type 0 where
  pub begun : List Session
  pub to_come : List (List (List Event))

abbrev pub run_in :
    {A : Type 0} → ℕ → Routine Session A → Sessions → Option Session → Result A × Sessions
run_in i m s none = (undefined, s)
run_in i m s (some u) = let (r, v) = m u in (r, record s { begun = set s.begun i v })

-- The coroutine `m` of the transaction `i`.
unfoldable pub within : {A : Type 0} → ℕ → Routine Session A → Routine Sessions A
within i m s = run_in i m s (get_elem? s.begun i)

abbrev pub cursor_within : ℕ → Cursor Session → Cursor Sessions
cursor_within i c = record {
  cursor_id = within i c.cursor_id;
  seek = λ table key. within i (c.seek table key);
  open_cursor = λ table. within i (c.open_cursor table);
  seek_key = λ key. within i (c.seek_key key);
  next = within i c.next;
  close_cursor = within i c.close_cursor;
}

abbrev pub transaction_within : ℕ → Transaction Session → Transaction Sessions
transaction_within i tx = record {
  cursor = within i tx.cursor >>= λ c. pure (cursor_within i c);
  cursor_for = λ table. within i (tx.cursor_for table) >>= λ c. pure (cursor_within i c);
  close = within i tx.close;
}

-- `RemoteDatabase::begin`: a new transaction, with a reactor of its own.
unfoldable pub begin : Routine Sessions (Transaction Sessions)
begin s = (
  value (transaction_within (length s.begun) remote_transaction),
  record { begun = s.begun ++ Session.begin (upcoming s.to_come) ∷ []; to_come = later s.to_come },
)

abbrev pub remote_database : Database Sessions
remote_database = record { begin = begin }
