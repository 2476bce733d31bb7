-- ===== src/Coro/Direct.antt =====
-- A coroutine read directly: a call of another coroutine is a call, and the answers are read in
-- turn.
use silkoroutine.Common.{ℕ, List, [], ◌∷◌, ◌++◌}
use silkoroutine.Coro.Task.{Body, co_return, throws, co_await_task, co_await_void, co_await_op}

-- What becomes of a body, with the operations that it starts: it returns a value and leaves
-- answers, it waits for an answer that does not come, or an exception leaves it.
pub data Direct : Type 0 where
  returns : ℕ → List ℕ → List ℕ → Direct
  waits : List ℕ → Direct
  terminates : List ℕ → Direct

abbrev pub after_ops : List ℕ → Direct → Direct
after_ops ops (returns v more xs) = returns v (ops ++ more) xs
after_ops ops (waits more) = waits (ops ++ more)
after_ops ops (terminates more) = terminates (ops ++ more)

abbrev pub and_then : Direct → (ℕ → List ℕ → Direct) → Direct
and_then (returns v ops xs) g = after_ops ops (g v xs)
and_then (waits ops) g = waits ops
and_then (terminates ops) g = terminates ops

unfoldable pub eval : Body → List ℕ → Direct
eval (co_return v) xs = returns v [] xs
eval throws xs = terminates []
eval (co_await_task b k) xs = and_then (eval b xs) (λ v rest. eval (k v) rest)
eval (co_await_void b k) xs = and_then (eval b xs) (λ v rest. eval k rest)
eval (co_await_op op k) [] = waits (op ∷ [])
eval (co_await_op op k) (a ∷ xs) = after_ops (op ∷ []) (eval (k a) xs)
