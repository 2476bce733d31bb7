-- ===== src/Kv/World.antt =====
-- The state of the bindings, which is the reactor, the queue of the `io_context`, the operations on
-- the heap and the handlers that were called; and the code that a callback can hold.
use silkoroutine.Common.{ℕ, Bytes, Bool, false, List, [], String}
use silkoroutine.Remote.{Cursor, Pair}
use silkoroutine.Kv.Reactor.{GrpcClientReactor, new_reactor}

-- The exceptions that the code throws itself or by a call of the standard library.
pub data Error : Type 0 where
  io_error : String → Error
  bad_function_call bad_optional_access : Error

-- `raised` has what was changed before the throw; `fault` is undefined behaviour.
pub data Outcome {ℓ} (A : Type ℓ) : Type ℓ where
  ok : A → Outcome A
  raised : Error → A → Outcome A
  fault : Outcome A

-- The value that a handler is called with: `uint32_t`, `remote::Pair` or `google::protobuf::Empty`.
pub data Payload : Type 0 where
  id : ℕ → Payload
  pair : Pair → Payload
  empty : Payload

-- One value that is written to `std::cout`: text, a number, characters, or bytes as hexadecimal.
pub data Item : Type 0 where
  text : String → Item
  number : ℕ → Item
  chars : Bytes → Item
  bytes : Bytes → Item

-- The body of a callback. Each constructor is a call that the source makes, with what follows it.
pub data Command : Type 0 where
  return : Command
  throw : Error → Command
  write_start : Cursor → (Bool → Command) → Command
  read_start : (Bool → Pair → Command) → Command
  close_start : (Bool → Command) → Command
  post : Command → Command
  complete : ℕ → Payload → Command
  print : List Item → Command → Command
  stop : Command

-- The member `func_` of `async_operation`: the `do_complete` of the class that made the object.
pub data FuncType : Type 0 where
  open_cursor_func seek_func next_func close_cursor_func close_func : FuncType

-- An object of one of the `async_*` classes, and whether it is still allocated.
pub record Operation : Type 0 where
  pub func : FuncType
  pub handler : ℕ
  pub is_live : Bool

pub record World : Type 0 where
  pub reactor : GrpcClientReactor Command
  pub posted : List Command
  pub operations : List Operation
  pub upcalls : List (ℕ × Payload)
  pub output : List (List Item)
  pub stopped : Bool

abbrev pub new_world : World
new_world = record {
  reactor = new_reactor;
  posted = [];
  operations = [];
  upcalls = [];
  output = [];
  stopped = false;
}
