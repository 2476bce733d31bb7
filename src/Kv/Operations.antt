-- ===== src/Kv/Operations.antt =====
-- silkoroutine/bindings/async_operation.hpp and the classes of
-- silkoroutine/bindings/kv/async_*.hpp. `handler_work`, which keeps the `io_context` busy while an
-- operation is out, belongs to asio.
use silkoroutine.Common.{
  ℕ, Bool, true, false, [], ◌∷◌, ◌++◌, Option, none, some, get_elem?, set, if◌then◌else◌,
}
use silkoroutine.Remote.{Pair}
use silkoroutine.Kv.World.{
  World, Operation, FuncType, open_cursor_func, seek_func, next_func, close_cursor_func, close_func,
  Payload, id, pair, Outcome, ok, fault,
}

-- `new op(handler, …)`: the operation's address is its place in the list.
abbrev pub new_operation : FuncType → ℕ → World → World
new_operation func handler w = record w {
  operations = w.operations ++ record { func = func; handler = handler; is_live = true } ∷ [];
}

-- `p.reset()`: the operation's memory is given back.
abbrev pub reset : ℕ → Operation → World → World
reset base h w = record w { operations = set w.operations base (record h { is_live = false }) }

-- The upcall is made if there is an owner, with the copy of the handler.
abbrev pub upcall : Bool → ℕ → Payload → World → World
upcall true handler p w = record w { upcalls = w.upcalls ++ (handler, p) ∷ [] }
upcall false handler p w = w

-- `async_open_cursor::do_complete` of async_open_cursor.hpp.
abbrev pub async_open_cursor_do_complete : Bool → ℕ → Operation → ℕ → World → World
async_open_cursor_do_complete owner base h cursor_id w =
    upcall owner h.handler (id cursor_id) (reset base h w)

-- `async_seek::do_complete` of async_seek.hpp.
abbrev pub async_seek_do_complete : Bool → ℕ → Operation → Pair → World → World
async_seek_do_complete owner base h seek_pair w =
    upcall owner h.handler (pair seek_pair) (reset base h w)

-- `async_next::do_complete` of async_next.hpp.
abbrev pub async_next_do_complete : Bool → ℕ → Operation → Pair → World → World
async_next_do_complete owner base h next_pair w =
    upcall owner h.handler (pair next_pair) (reset base h w)

-- `async_close_cursor::do_complete` of async_close_cursor.hpp.
abbrev pub async_close_cursor_do_complete : Bool → ℕ → Operation → ℕ → World → World
async_close_cursor_do_complete owner base h cursor_id w =
    upcall owner h.handler (id cursor_id) (reset base h w)

-- `async_close::do_complete` of async_close.hpp.
abbrev pub async_close_do_complete : Bool → ℕ → Operation → ℕ → World → World
async_close_do_complete owner base h cursor_id w =
    upcall owner h.handler (id cursor_id) (reset base h w)

-- The call through `func_`. An argument of another type is a cast to the wrong class.
unfoldable pub call_func : FuncType → Bool → ℕ → Operation → Payload → World → Outcome World
call_func open_cursor_func owner base h (id n) w =
    ok (async_open_cursor_do_complete owner base h n w)
call_func seek_func owner base h (pair p) w = ok (async_seek_do_complete owner base h p w)
call_func next_func owner base h (pair p) w = ok (async_next_do_complete owner base h p w)
call_func close_cursor_func owner base h (id n) w =
    ok (async_close_cursor_do_complete owner base h n w)
call_func close_func owner base h (id n) w = ok (async_close_do_complete owner base h n w)
call_func _ owner base h p w = fault

-- An operation that was freed, or never made, is a dangling pointer.
unfoldable pub through : Bool → ℕ → Payload → Option Operation → World → Outcome World
unfolding call_func
through owner base p none w = fault
through owner base p (some h) w = if h.is_live then call_func h.func owner base h p w else fault

-- `async_operation::complete`, which hands itself over with the owner and the arguments.
unfoldable pub complete_operation : ℕ → Payload → World → Outcome World
unfolding through
complete_operation base p w = through true base p (get_elem? w.operations base) w
