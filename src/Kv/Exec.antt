-- ===== src/Kv/Exec.antt =====
-- The run of a callback's code, and the events that set one off.
use silkoroutine.Common.{Bool, true, List, [], ◌∷◌, ◌++◌, Option, none, some}
use silkoroutine.Remote.{Pair}
use silkoroutine.Kv.Reactor
use silkoroutine.Kv.World.{
  World, Command, return, throw, write_start, read_start, close_start, post, complete, print, stop,
  Outcome, ok, raised, fault, bad_function_call,
}
use silkoroutine.Kv.Operations.{complete_operation}

unfoldable pub exec : Command → World → Outcome World
unfolding complete_operation
exec return w = ok w
exec (throw e) w = raised e w
exec (write_start m k) w = ok (record w { reactor = Reactor.write_start w.reactor m k })
exec (read_start k) w = ok (record w { reactor = Reactor.read_start w.reactor k })
exec (close_start k) w = ok (record w { reactor = Reactor.close_start w.reactor k })
exec (post c) w = ok (record w { posted = w.posted ++ c ∷ [] })
exec (complete op p) w = complete_operation op p w
exec (print line k) w = exec k (record w { output = w.output ++ line ∷ [] })
exec stop w = ok (record w { stopped = true })

-- A call through a `std::function`, which throws if the function is empty.
abbrev pub call : Option Command → World → Outcome World
call none w = raised bad_function_call w
call (some c) w = exec c w

-- What gRPC and the thread that runs the `io_context` do next.
pub data Event : Type 0 where
  write_done : Bool → Event
  read_done : Bool → Pair → Event
  done : Bool → Event
  run_one : Event

-- `run_one` takes the first handler off the queue.
abbrev pub run_posted : List Command → World → Outcome World
run_posted [] w = ok w
run_posted (c ∷ cs) w = exec c (record w { posted = cs })

unfoldable pub deliver : Event → World → Outcome World
unfolding exec
deliver (write_done b) w = call (Reactor.on_write_done w.reactor b) w
deliver (read_done b p) w =
    let r = Reactor.received w.reactor b p in
    call (Reactor.on_read_done r b) (record w { reactor = r })
deliver (done b) w = call (Reactor.on_done w.reactor b) w
deliver run_one w = run_posted w.posted w

infixl 5 ◌>>=◌
abbrev pub ◌>>=◌ {ℓ} : {A : Type ℓ} → Outcome A → (A → Outcome A) → Outcome A
ok a >>= f = f a
raised e a >>= f = raised e a
fault >>= f = fault

unfoldable pub drive : List Event → World → Outcome World
unfolding deliver
drive [] w = ok w
drive (e ∷ es) w = deliver e w >>= drive es
