-- ===== src/Cmd/KvSeekCoroutines.antt =====
-- cmd/kv_seek_async_coroutines.cpp: a seek by coroutines. What it prints is left out, but for the
-- cursor's number and the pair, which are its result here.
pub mod Within
pub mod Served
pub mod Outcomes
use silkoroutine.Common.{ℕ, Bytes, ℤ, pos, negsuc, none, some, List, [], ◌∷◌}
use silkoroutine.Util.{KeyValue}
use silkoroutine.Kv.World.{Error}
use silkoroutine.Kv.Exec.{Event}
use silkoroutine.Ethdb.Session.{
  Routine, Result, value, thrown, undefined, suspended, pure, ◌>>=◌, ◌>>◌,
}
use silkoroutine.Ethdb.Interface.{Database}
use silkoroutine.Ethdb.Interface.Remote.{Sessions, remote_database}
use silkoroutine.Cmd.KvFlags.{Flags, check_timeout}

unfoldable pub kv_seek : {S : Type 0} → Database S → Bytes → Bytes → Routine S (ℕ × KeyValue)
kv_seek kv_db table_name key = do
  kv_transaction ← kv_db.begin
  kv_cursor ← kv_transaction.cursor_for table_name
  cursor_id ← kv_cursor.cursor_id
  kv_pair ← kv_cursor.seek_key key
  kv_transaction.close
  pure (cursor_id, kv_pair)

-- How far `main` comes. `hangs` is a context that nothing stops. `uncaught` is an exception that a
-- callback has let out, which no code of the program catches. One out of a handler of the context
-- leaves `main`. One out of a callback of gRPC is left to gRPC: it may end the process, or drop the
-- exception, and then nothing stops the context. `faulted` is undefined behaviour.
pub data End : Type 0 where
  exited : ℤ → End
  uncaught : Error → End
  hangs faulted : End

abbrev pub ending : {A : Type 0} → Result A → End
ending (value a) = exited (pos 0)
ending (thrown e) = uncaught e
ending undefined = faulted
ending suspended = hangs

-- Nothing was begun, and gRPC and the context will do `events` in the one transaction to come.
abbrev pub before_begin : List (List Event) → Sessions
before_begin events = record { begun = []; to_come = events ∷ [] }

-- `main`, with what gRPC and the context do during each `co_await`.
unfoldable pub main : Flags → List (List Event) → End × Sessions
main f events = elim (check_timeout f) [
  | none ↦ (exited (negsuc 0), before_begin events)
  | some key ↦
      let (r, t) = kv_seek remote_database f.table key (before_begin events) in (ending r, t)
]
