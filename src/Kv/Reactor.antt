-- ===== src/Kv/Reactor.antt =====
-- silkoroutine/bindings/kv/grpc_client_reactor.hpp. A `std::function` member is an `Option`: `none`
-- is the empty function. What a callback does when it is called is a value of the type `X`.
use silkoroutine.Common.{Bool, List, [], ◌∷◌, ◌++◌, Option, none, some, if◌then◌else◌}
use silkoroutine.Remote.{Cursor, Pair, empty_pair}
use mathlib.Core.Option

-- The calls that the reactor makes of its base class, which belongs to gRPC.
pub data GrpcCall : Type 0 where
  start_call : GrpcCall
  start_write : Cursor → GrpcCall
  start_read : GrpcCall
  start_writes_done : GrpcCall

pub record GrpcClientReactor (X : Type 0) : Type 0 where
  pub pair : Pair
  pub read_completed : Option (Bool → Pair → X)
  pub write_completed : Option (Bool → X)
  pub close_completed : Option (Bool → X)
  pub calls : List GrpcCall

-- The constructor starts the call; the three callbacks are empty.
abbrev pub new_reactor : {X : Type 0} → GrpcClientReactor X
new_reactor = record {
  pair = empty_pair;
  read_completed = none;
  write_completed = none;
  close_completed = none;
  calls = start_call ∷ [];
}

module _ {X : Type 0} (r : GrpcClientReactor X) where
  abbrev pub close_start : (Bool → X) → GrpcClientReactor X
  close_start f = record r { close_completed = some f; calls = r.calls ++ start_writes_done ∷ [] }

  abbrev pub read_start : (Bool → Pair → X) → GrpcClientReactor X
  read_start f = record r { read_completed = some f; calls = r.calls ++ start_read ∷ [] }

  abbrev pub write_start : Cursor → (Bool → X) → GrpcClientReactor X
  write_start cursor f = record r {
    write_completed = some f;
    calls = r.calls ++ start_write cursor ∷ [];
  }

  -- gRPC has stored what it read in `pair_` when it reports a read that succeeded.
  abbrev pub received : Bool → Pair → GrpcClientReactor X
  received ok p = record r { pair = if ok then p else r.pair }

  -- The call that an event makes; `none` is a call of an empty function.
  abbrev pub on_read_done : Bool → Option X
  on_read_done ok = Option.map (λ f. f ok r.pair) r.read_completed

  abbrev pub on_write_done : Bool → Option X
  on_write_done ok = Option.map (λ f. f ok) r.write_completed

  abbrev pub on_done : Bool → Option X
  on_done status_ok = Option.map (λ f. f status_ok) r.close_completed
