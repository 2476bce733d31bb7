-- ===== src/Ethdb/Interface.antt =====
-- silkoroutine/ethdb/kv/cursor.hpp, transaction.hpp and database.hpp: the abstract classes, whose
-- methods are coroutines over the state `S` of what implements them.
pub mod Remote
pub mod Closing
pub mod Held
pub mod RemoteCloses
pub mod Client
use silkoroutine.Common.{ℕ, Bytes}
use silkoroutine.Util.{KeyValue}
use silkoroutine.Ethdb.Session.{Routine}

pub record Cursor (S : Type 0) : Type 0 where
  pub cursor_id : Routine S ℕ
  pub seek : Bytes → Bytes → Routine S KeyValue
  pub open_cursor : Bytes → Routine S (Unit {0})
  pub seek_key : Bytes → Routine S KeyValue
  pub next : Routine S KeyValue
  pub close_cursor : Routine S (Unit {0})

pub record Transaction (S : Type 0) : Type 0 where
  pub cursor : Routine S (Cursor S)
  pub cursor_for : Bytes → Routine S (Cursor S)
  pub close : Routine S (Unit {0})

pub record Database (S : Type 0) : Type 0 where
  pub begin : Routine S (Transaction S)
