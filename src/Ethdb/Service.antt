-- ===== src/Ethdb/Service.antt =====
-- What the owner of a transaction sees of it, against a KV service that answers every message. The
-- service is not part of the program: its state and its answers are a parameter.
pub mod View
pub mod Exchanges
pub mod Cursors
pub mod Closing
pub mod Seeks
pub mod Refines
pub mod Faults
use silkoroutine.Common.{ℕ, Bytes, List, [], ◌∷◌, ◌++◌, Option, none, some, ◌==◌, if◌then◌else◌}
use silkoroutine.Util.{KeyValue}
use silkoroutine.Remote.{
  Cursor, Pair, empty_pair, open_message, seek_message, next_message, close_message,
}
use silkoroutine.Kv.Awaitables.{
  Request, async_open_cursor, async_seek, async_next, async_close_cursor, async_close,
}
use silkoroutine.Ethdb.TableMap.{TableMap, find, insert}
use silkoroutine.Ethdb.Session.{Coroutine, pure, ◌>>=◌, ◌>>◌}
use silkoroutine.Ethdb.RemoteCursor.{key_value, new_cursor, seek_key}
use silkoroutine.Ethdb.RemoteCursor
use silkoroutine.Ethdb.RemoteTransaction
use silkoroutine.Ethdb.RemoteTransaction.{cursor_for}

-- What the owner does with the tables of a transaction: the cursor of a table is the one that
-- `cursor(table)` gives, but for `seek_table_op`, which uses a new one that `cursor()` gives.
pub data Op : Type 0 where
  open_op : Bytes → Op
  seek_op : Bytes → Bytes → Op
  next_op : Bytes → Op
  seek_table_op : Bytes → Bytes → Op
  close_op : Op

-- The same with the objects of the program. The result is the pair that was read, if one was.
unfoldable pub perform : Op → Coroutine (Option KeyValue)
perform (open_op table) = do _ ← cursor_for table; pure none
perform (seek_op table key) = do
  cursor ← cursor_for table
  kv_pair ← seek_key cursor key
  pure (some kv_pair)
perform (next_op table) = do
  cursor ← cursor_for table
  kv_pair ← RemoteCursor.next cursor
  pure (some kv_pair)
perform (seek_table_op table key) = do
  cursor ← new_cursor
  kv_pair ← RemoteCursor.seek cursor table key
  pure (some kv_pair)
perform close_op = do RemoteTransaction.close; pure none

unfoldable pub perform_all : List Op → Coroutine (List (Option KeyValue))
perform_all [] = pure []
perform_all (op ∷ ops) = do r ← perform op; rs ← perform_all ops; pure (r ∷ rs)

pub record Service : Type 1 where
  pub State : Type 0
  pub answer : Cursor → State → Pair × State

-- A request and its answer.
abbrev pub Exchanges : Type 0
Exchanges = List (Request × Pair)

module _ (S : Service) where
  -- The specification: the ids of the tables' cursors, and the state of the service. It has no
  -- objects, no streams and no callbacks.
  pub record Spec : Type 0 where
    pub ids : TableMap ℕ
    pub service : S.State

  pub record Step (A : Type 0) : Type 0 where
    pub result : A
    pub exchanges : Exchanges
    pub spec : Spec

  abbrev pub ask : Request → Cursor → Spec → Step Pair
  ask r m a =
      let (p, s) = S.answer m a.service in
      record { result = p; exchanges = (r, p) ∷ []; spec = record a { service = s } }

  abbrev pub after : {A B : Type 0} → Step A → (A → Spec → Step B) → Step B
  after x f =
      let y = f x.result x.spec in
      record { result = y.result; exchanges = x.exchanges ++ y.exchanges; spec = y.spec }

  abbrev pub give : {A : Type 0} → A → Spec → Step A
  give r a = record { result = r; exchanges = []; spec = a }

  -- The id of a table's cursor, which is opened on the first use of the table.
  unfoldable pub spec_cursor : Bytes → Spec → Step ℕ
  spec_cursor table a = elim (find table a.ids) [
    | some id ↦ give id a
    | none ↦
        after (ask (async_open_cursor table) (open_message table) a)
          (λ p b. give p.cursorid (record b { ids = insert table p.cursorid b.ids }))
  ]

  -- A CLOSE for each open cursor, in the order of the tables. The id 0 stands for a closed cursor.
  unfoldable pub spec_close_each : TableMap ℕ → Spec → Step (Unit {0})
  spec_close_each [] a = give tt a
  spec_close_each ((table, id) ∷ ids) a =
      if id == 0
      then spec_close_each ids a
      else after (ask (async_close_cursor id) (close_message id) a) (λ _ b. spec_close_each ids b)

  -- A CLOSE for the cursor of an id, if it is open.
  unfoldable pub spec_close_id : ℕ → Spec → Step (Unit {0})
  spec_close_id id a =
      if id == 0
      then give tt a
      else after (ask (async_close_cursor id) (close_message id) a) (λ _ b. give tt b)

  unfoldable pub spec_perform : Op → Spec → Step (Option KeyValue)
  spec_perform (open_op table) a = after (spec_cursor table a) (λ _ b. give none b)
  spec_perform (seek_op table key) a = after (spec_cursor table a) λ id b.
      after (ask (async_seek id key) (seek_message id key) b) (λ p c. give (some (key_value p)) c)
  spec_perform (next_op table) a =
      after (spec_cursor table a)
        λ id b. after (ask (async_next id) (next_message id) b) (λ p c. give (some (key_value p)) c)
  spec_perform (seek_table_op table key) a =
      after (ask (async_open_cursor table) (open_message table) a) λ o b.
        after (ask (async_seek o.cursorid key) (seek_message o.cursorid key) b)
          λ p c. after (spec_close_id o.cursorid c) λ _ d. give (some (key_value p)) d
  spec_perform close_op a = after (spec_close_each a.ids a) λ _ b. record {
    result = none;
    exchanges = (async_close, empty_pair) ∷ [];
    spec = record b { ids = [] };
  }

  unfoldable pub spec_perform_all : List Op → Spec → Step (List (Option KeyValue))
  spec_perform_all [] a = give [] a
  spec_perform_all (op ∷ ops) a =
      after (spec_perform op a) λ r b. after (spec_perform_all ops b) (λ rs c. give (r ∷ rs) c)
