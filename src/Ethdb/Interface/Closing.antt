-- ===== src/Ethdb/Interface/Closing.antt =====
-- What the client of a database relies on: that its cursors are closed with their transaction.
use silkoroutine.Common.{Bytes, ◌≡◌}
use silkoroutine.Ethdb.Session.{value}
use silkoroutine.Ethdb.Interface.{Cursor, Transaction, Database}

-- What a client can do with a cursor.
pub data Use : Type 0 where
  use_cursor_id use_next use_close_cursor : Use
  use_open_cursor use_seek_key : Bytes → Use
  use_seek : Bytes → Bytes → Use

-- The state after it, whatever comes of it.
unfoldable pub after : {S : Type 0} → Use → Cursor S → S → S
after use_cursor_id c s = (c.cursor_id s).1
after use_next c s = (c.next s).1
after use_close_cursor c s = (c.close_cursor s).1
after (use_open_cursor table) c s = (c.open_cursor table s).1
after (use_seek_key key) c s = (c.seek_key key s).1
after (use_seek table key) c s = (c.seek table key s).1

-- `Holds tx c s`: in the state `s`, the transaction has the cursor among those that it gave by
-- table. It keeps it, whatever its cursors are used for, until it is closed, which closes the
-- cursor.
pub record ClosesCursors {S : Type 0} (kv_db : Database S) : Type 1 where
  pub Begun : Transaction S → Type 0
  pub Holds : Transaction S → Cursor S → S → Type 0
  pub begins : (s t : S) (tx : Transaction S) → kv_db.begin s ≡ (value tx, t) → Begun tx
  pub gives :
      (tx : Transaction S) (table : Bytes) (s t : S) (c : Cursor S)
      → Begun tx
      → tx.cursor_for table s ≡ (value c, t)
      → Holds tx c t
  pub holds :
      (tx : Transaction S) (c c' : Cursor S) (s : S) (u : Use)
      → Holds tx c s
      → Holds tx c' s
      → Holds tx c (after u c' s)
  pub holds_cursor_for :
      (tx : Transaction S) (c : Cursor S) (table : Bytes) (s : S)
      → Holds tx c s
      → Holds tx c (tx.cursor_for table s).1
  pub closes :
      (tx : Transaction S) (c : Cursor S) (s t : S)
      → Holds tx c s
      → tx.close s ≡ (value tt, t)
      → c.cursor_id t ≡ (value 0, t)
