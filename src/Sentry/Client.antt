-- ===== src/Sentry/Client.antt =====
-- bindings/p2psentry/grpc_client.hpp, async_set_status.hpp and awaitables.hpp. The source names the
-- member `status_data_` of `initiate_async_set_status` as `status_data`; it is read as the member.
use silkoroutine.Common.{
  suc, ℕ, Bool, true, false, List, [], ◌∷◌, ◌++◌, Option, none, some, length, get_elem?, set, ◌==◌,
  not, if◌then◌else◌,
}
use silkoroutine.Kv.World.{io_error, Outcome, ok, raised, fault}
use silkoroutine.Kv.Exec.{◌>>=◌}
use silkoroutine.Remote.{StatusData}

-- An object of the class `async_set_status`, and whether it is still allocated.
pub record Operation : Type 0 where
  pub handler : ℕ
  pub is_live : Bool

-- `used` are the objects of `GrpcClient`, by number, whose one `ClientContext` a call was given.
-- `sent` are the messages that they have passed to their stubs, and `in_flight` the operations
-- in the callbacks of the calls that gRPC has not finished. `posted` is the queue of the
-- `io_context`: the operations to complete. `upcalls` are the handlers that were called, each with
-- the empty response.
pub record World : Type 0 where
  pub used : List ℕ
  pub sent : List StatusData
  pub in_flight : List ℕ
  pub posted : List ℕ
  pub operations : List Operation
  pub upcalls : List ℕ

abbrev pub new_world : World
new_world = record {
  used = [];
  sent = [];
  in_flight = [];
  posted = [];
  operations = [];
  upcalls = [];
}

abbrev pub count : ℕ → List ℕ → ℕ
count j [] = 0
count j (x ∷ xs) = if x == j then suc (count j xs) else count j xs

-- `GrpcClient::set_status`, whose callback holds the operation `op`. Each call of a client is given
-- the same `ClientContext`, and gRPC forbids a second one of it: `fault`.
unfoldable pub set_status : ℕ → StatusData → ℕ → World → Outcome World
set_status client status_data op w =
    if count client w.used == 0
    then ok (record w {
      used = w.used ++ client ∷ [];
      sent = w.sent ++ status_data ∷ [];
      in_flight = w.in_flight ++ op ∷ [];
    })
    else fault

-- `initiate_async_set_status::operator()`.
unfoldable pub initiate_async_set_status : ℕ → StatusData → ℕ → World → Outcome World
unfolding set_status
initiate_async_set_status client status_data handler w =
    let op = length w.operations in
    set_status client status_data op
      (record w { operations = w.operations ++ record { handler = handler; is_live = true } ∷ [] })

-- `GrpcAsioAwaitable::async_set_status`, which hands the handler to the initiation.
abbrev pub async_set_status : ℕ → StatusData → ℕ → World → Outcome World
async_set_status client status_data handler w =
    initiate_async_set_status client status_data handler w

-- The callback of a call.
unfoldable pub on_status : ℕ → Bool → World → Outcome World
on_status op status_ok w =
    if not status_ok
    then raised (io_error "failure in SET_STATUS") w
    else ok (record w { posted = w.posted ++ op ∷ [] })

-- `async_set_status::do_complete` with an owner: the operation is given back before the upcall. One
-- that was given back, or never made, is a dangling pointer.
unfoldable pub do_complete : ℕ → Option Operation → World → Outcome World
do_complete base none w = fault
do_complete base (some h) w =
    if h.is_live
    then ok (record w {
      operations = set w.operations base (record h { is_live = false });
      upcalls = w.upcalls ++ h.handler ∷ [];
    })
    else fault

-- What happens next: a coroutine sets the status by a client, with a handler; gRPC finishes the
-- call of an operation, or the thread of the `io_context` runs the first handler of the queue.
pub data Event : Type 0 where
  start : ℕ → StatusData → ℕ → Event
  finished : ℕ → Bool → Event
  run_one : Event

abbrev pub remove : ℕ → List ℕ → List ℕ
remove j [] = []
remove j (x ∷ xs) = if x == j then xs else x ∷ remove j xs

abbrev pub run_posted : List ℕ → World → Outcome World
run_posted [] w = ok w
run_posted (op ∷ ops) w = do_complete op (get_elem? w.operations op) (record w { posted = ops })

-- gRPC finishes only calls that are in flight: another event of the kind is none.
unfoldable pub deliver : Event → World → Outcome World
unfolding initiate_async_set_status on_status do_complete
deliver (start client status_data handler) w = async_set_status client status_data handler w
deliver (finished op status_ok) w =
    if count op w.in_flight == 0
    then ok w
    else on_status op status_ok (record w { in_flight = remove op w.in_flight })
deliver run_one w = run_posted w.posted w

unfoldable pub run : List Event → World → Outcome World
run [] w = ok w
run (e ∷ es) w = deliver e w >>= run es
