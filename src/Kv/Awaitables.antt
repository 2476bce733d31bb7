-- ===== src/Kv/Awaitables.antt =====
-- silkoroutine/bindings/kv/awaitables.hpp.
use silkoroutine.Common.{ℕ, Bytes, not, length, if◌then◌else◌}
use silkoroutine.Remote.{open_message, seek_message, next_message, close_message}
use silkoroutine.Kv.World.{
  World, Outcome, id, pair, io_error, throw, write_start, read_start, close_start, post, complete,
  open_cursor_func, seek_func, next_func, close_cursor_func, close_func,
}
use silkoroutine.Kv.Operations.{new_operation}
use silkoroutine.Kv.Exec.{exec}

-- `initiate_async_open_cursor::operator()`, with the lambdas that it registers.
unfoldable pub initiate_async_open_cursor : Bytes → ℕ → World → Outcome World
unfolding exec
initiate_async_open_cursor table_name handler w =
    let op = length w.operations in
    exec
      (write_start (open_message table_name) λ ok.
        if not ok
        then throw (io_error "write failed in OPEN_CURSOR")
        else read_start λ ok' open_pair.
          let cursor_id = open_pair.cursorid in
          post (
            if not ok'
            then throw (io_error "read failed in OPEN_CURSOR")
            else complete op (id cursor_id)))
      (new_operation open_cursor_func handler w)

-- `initiate_async_seek::operator()`.
unfoldable pub initiate_async_seek : ℕ → Bytes → ℕ → World → Outcome World
unfolding exec
initiate_async_seek cursor_id seek_key_bytes handler w =
    let op = length w.operations in
    exec
      (write_start (seek_message cursor_id seek_key_bytes) λ ok.
        if not ok
        then throw (io_error "write failed in SEEK")
        else read_start λ ok' seek_pair. post (
            if not ok'
            then throw (io_error "read failed in SEEK")
            else complete op (pair seek_pair)))
      (new_operation seek_func handler w)

-- `initiate_async_next::operator()`.
unfoldable pub initiate_async_next : ℕ → ℕ → World → Outcome World
unfolding exec
initiate_async_next cursor_id handler w =
    let op = length w.operations in
    exec
      (write_start (next_message cursor_id) λ ok.
        if not ok
        then throw (io_error "write failed in NEXT")
        else read_start λ ok' next_pair. post (
            if not ok'
            then throw (io_error "read failed in NEXT")
            else complete op (pair next_pair)))
      (new_operation next_func handler w)

-- `initiate_async_close_cursor::operator()`.
unfoldable pub initiate_async_close_cursor : ℕ → ℕ → World → Outcome World
unfolding exec
initiate_async_close_cursor cursor_id handler w =
    let op = length w.operations in
    exec
      (write_start (close_message cursor_id) λ ok.
        if not ok
        then throw (io_error "write failed in CLOSE_CURSOR")
        else read_start λ ok' close_pair.
          let closed_id = close_pair.cursorid in
          post (
            if not ok'
            then throw (io_error "read failed in CLOSE_CURSOR")
            else complete op (id closed_id)))
      (new_operation close_cursor_func handler w)

-- `initiate_async_close::operator()`.
unfoldable pub initiate_async_close : ℕ → World → Outcome World
unfolding exec
initiate_async_close handler w =
    let op = length w.operations in
    exec
      (close_start
        λ ok. post (if not ok then throw (io_error "gRPC failed in CLOSE") else complete op (id 0)))
      (new_operation close_func handler w)

-- The five members of `GrpcAsioAwaitable` that start an operation.
pub data Request : Type 0 where
  async_open_cursor : Bytes → Request
  async_seek : ℕ → Bytes → Request
  async_next async_close_cursor : ℕ → Request
  async_close : Request

unfoldable pub initiate : Request → ℕ → World → Outcome World
unfolding initiate_async_open_cursor initiate_async_seek initiate_async_next
    initiate_async_close_cursor initiate_async_close
initiate (async_open_cursor table_name) = initiate_async_open_cursor table_name
initiate (async_seek cursor_id key) = initiate_async_seek cursor_id key
initiate (async_next cursor_id) = initiate_async_next cursor_id
initiate (async_close_cursor cursor_id) = initiate_async_close_cursor cursor_id
initiate async_close = initiate_async_close
