-- ===== src/Kv/Exchange.antt =====
-- One operation from its start to the call of its handler, or to the exception that ends it.
use silkoroutine.Common.{
  ℕ, true, false, List, [], ◌∷◌, ◌++◌, ◌≡◌, refl, get_elem?-append_last, set-append_last,
  append_assoc,
}
use silkoroutine.Remote.{Pair, open_message, seek_message, next_message, close_message}
use silkoroutine.Kv.Reactor.{GrpcCall, start_write, start_read, start_writes_done}
use silkoroutine.Kv.World.{
  World, FuncType, open_cursor_func, seek_func, next_func, close_cursor_func, close_func, Outcome,
  ok, raised, fault, Payload, id, pair, io_error, Error,
}
use silkoroutine.Kv.Exec.{Event, write_done, read_done, done, run_one, drive, ◌>>=◌}
use silkoroutine.Kv.Awaitables.{
  Request, async_open_cursor, async_seek, async_next, async_close_cursor, async_close, initiate,
}

-- The calls that a request makes of gRPC, in order.
abbrev pub calls_of : Request → List GrpcCall
calls_of (async_open_cursor table) = start_write (open_message table) ∷ start_read ∷ []
calls_of (async_seek n key) = start_write (seek_message n key) ∷ start_read ∷ []
calls_of (async_next n) = start_write (next_message n) ∷ start_read ∷ []
calls_of (async_close_cursor n) = start_write (close_message n) ∷ start_read ∷ []
calls_of async_close = start_writes_done ∷ []

-- The first of them, which is all where the message is not written.
abbrev pub first_call : Request → GrpcCall
first_call (async_open_cursor table) = start_write (open_message table)
first_call (async_seek n key) = start_write (seek_message n key)
first_call (async_next n) = start_write (next_message n)
first_call (async_close_cursor n) = start_write (close_message n)
first_call async_close = start_writes_done

-- What the handler of a request is given when the server answers with a pair.
abbrev pub answer_of : Request → Pair → Payload
answer_of (async_open_cursor table) p = id p.cursorid
answer_of (async_seek n key) p = pair p
answer_of (async_next n) p = pair p
answer_of (async_close_cursor n) p = id p.cursorid
answer_of async_close p = id 0

abbrev pub func_of : Request → FuncType
func_of (async_open_cursor table) = open_cursor_func
func_of (async_seek n key) = seek_func
func_of (async_next n) = next_func
func_of (async_close_cursor n) = close_cursor_func
func_of async_close = close_func

-- The events of a request that goes well.
abbrev pub answered : Request → Pair → List Event
answered async_close p = done true ∷ run_one ∷ []
answered _ p = write_done true ∷ read_done true p ∷ run_one ∷ []

abbrev pub Returns : (World → Type 0) → Outcome World → Type 0
Returns P (ok w) = P w
Returns P (raised e w) = ⊥
Returns P fault = ⊥

-- What a request leaves that was answered: its calls, its upcall, its operation given back.
pub record Answered (r : Request) (handler : ℕ) (p : Pair) (w w' : World) : Type 0 where
  pub calls : w'.reactor.calls ≡ w.reactor.calls ++ calls_of r
  pub upcalls : w'.upcalls ≡ w.upcalls ++ (handler, answer_of r p) ∷ []
  pub posted : w'.posted ≡ []
  pub operations :
      w'.operations
      ≡ w.operations ++ record { func = func_of r; handler = handler; is_live = false } ∷ []

ruleset last_laws = (get_elem?-append_last, set-append_last)

-- A request that the server answers ends with one call of its handler: the handler gets the cursor
-- id or the pair of the answer, the request's message was written and one read was started (or the
-- end of the writes was announced), nothing stays queued, and the operation was freed.
pub exchange :
    (r : Request) (handler : ℕ) (p : Pair) (w : World)
    → w.posted ≡ []
    → Returns (Answered r handler p w) (initiate r handler w >>= drive (answered r p))
unfolding initiate drive
exchange async_close handler p w e =
    simp (e, last_laws) (record { calls = refl; upcalls = refl; posted = refl; operations = refl })
exchange _ handler p w e =
    simp (e, last_laws)
      (record { calls = simp append_assoc; upcalls = refl; posted = refl; operations = refl })

-- The texts of the two exceptions.
abbrev pub write_error : Request → Error
write_error (async_open_cursor table) = io_error "write failed in OPEN_CURSOR"
write_error (async_seek n key) = io_error "write failed in SEEK"
write_error (async_next n) = io_error "write failed in NEXT"
write_error (async_close_cursor n) = io_error "write failed in CLOSE_CURSOR"
write_error async_close = io_error "gRPC failed in CLOSE"

abbrev pub read_error : Request → Error
read_error (async_open_cursor table) = io_error "read failed in OPEN_CURSOR"
read_error (async_seek n key) = io_error "read failed in SEEK"
read_error (async_next n) = io_error "read failed in NEXT"
read_error (async_close_cursor n) = io_error "read failed in CLOSE_CURSOR"
read_error async_close = io_error "gRPC failed in CLOSE"

-- The events of a request whose message was not written, and of one whose answer was not read. An
-- end of the stream with an error status is both.
abbrev pub unwritten : Request → List Event
unwritten async_close = done false ∷ run_one ∷ []
unwritten _ = write_done false ∷ []

abbrev pub unread : Request → Pair → List Event
unread async_close p = done false ∷ run_one ∷ []
unread _ p = write_done true ∷ read_done false p ∷ run_one ∷ []

-- The exception that is thrown, and what the state is then.
abbrev pub Raises : Error → (World → Type 0) → Outcome World → Type 0
Raises e P (ok w) = ⊥
Raises e P (raised e' w) = (e' ≡ e) × P w
Raises e P fault = ⊥

-- The calls `cs` were made, no handler was called and nothing is queued; the request's operation
-- was never freed.
pub record Abandoned (r : Request) (handler : ℕ) (cs : List GrpcCall) (w w' : World) : Type 0 where
  pub calls : w'.reactor.calls ≡ w.reactor.calls ++ cs
  pub upcalls : w'.upcalls ≡ w.upcalls
  pub posted : w'.posted ≡ []
  pub operations :
      w'.operations
      ≡ w.operations ++ record { func = func_of r; handler = handler; is_live = true } ∷ []

-- A request whose message is not written, or whose answer is not read, ends with the exception that
-- names it; its handler is never called, and its operation is never freed. Only the first call of
-- the request was made of gRPC if the message was not written, and all of them else.
pub exchange_fails :
    (r : Request) (handler : ℕ) (p : Pair) (w : World)
    → w.posted ≡ []
    → Raises
        (write_error r)
        (Abandoned r handler (first_call r ∷ []) w)
        (initiate r handler w >>= drive (unwritten r))
      × Raises
          (read_error r)
          (Abandoned r handler (calls_of r) w)
          (initiate r handler w >>= drive (unread r p))
unfolding initiate drive
exchange_fails async_close handler p w e = simp e (
  (refl, record { calls = refl; upcalls = refl; posted = refl; operations = refl }),
  (refl, record { calls = refl; upcalls = refl; posted = refl; operations = refl }),
)
exchange_fails _ handler p w e = simp e (
  (refl, record { calls = refl; upcalls = refl; posted = refl; operations = refl }),
  (refl, record { calls = simp append_assoc; upcalls = refl; posted = refl; operations = refl }),
)
