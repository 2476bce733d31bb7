-- ===== src/Tests/Coroutines.antt =====
-- Runs of the tasks: a coroutine that waits for another one twice, which waits for an operation.
use silkoroutine.Common.{ℕ, ◌+◌, [], ◌∷◌, ◌≡◌, ◌≢◌, refl, true, false}
use silkoroutine.Coro.Task.{
  Body, co_return, throws, co_await_task, co_await_void, co_await_op, fault, steps, start,
  start_void,
}
use silkoroutine.Coro.Direct.{returns, waits, terminates, eval}
use silkoroutine.Coro.Runs.{Completes, start-eval}
use silkoroutine.Coro.Safety.{start_safe}

abbrev asks : ℕ → Body
asks op = co_await_op op λ v. co_return (v + 100)

abbrev asks_twice : Body
asks_twice = co_await_task (asks 1) λ v. co_await_task (asks 2) λ w. co_return (v + w)

asks_twice_returns : eval asks_twice (5 ∷ 6 ∷ 7 ∷ []) ≡ returns 211 (1 ∷ 2 ∷ []) (7 ∷ [])
unfolding eval
asks_twice_returns = refl

asks_twice_waits : eval asks_twice (5 ∷ []) ≡ waits (1 ∷ 2 ∷ [])
unfolding eval
asks_twice_waits = refl

-- The caller does not get an exception of the task.
asks_and_throws :
    eval (co_await_task (co_await_op 1 λ v. throws) co_return) (5 ∷ []) ≡ terminates (1 ∷ [])
unfolding eval
asks_and_throws = refl

-- A task without a value, in between.
abbrev tells : Body
tells = co_await_void (asks 3) asks_twice

start-eval_example :
    Completes false 9 (eval tells (5 ∷ 6 ∷ 7 ∷ [])) (start tells 9 (5 ∷ 6 ∷ 7 ∷ []))
    × Completes true 9 (eval tells (5 ∷ 6 ∷ 7 ∷ [])) (start_void tells 9 (5 ∷ 6 ∷ 7 ∷ []))
start-eval_example = start-eval tells 9 (5 ∷ 6 ∷ 7 ∷ [])

start_safe_example :
    ((steps 4 (start tells 9 (5 ∷ []))).0 ≢ fault)
    × ((steps 4 (start_void tells 9 (5 ∷ []))).0 ≢ fault)
start_safe_example = start_safe tells 9 (5 ∷ []) 4
