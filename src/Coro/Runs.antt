-- ===== src/Coro/Runs.antt =====
-- A task runs as its body reads.
use silkoroutine.Common.{
  Bool, true, false, if◌then◌else◌, ℕ, suc, ◌+◌, List, [], ◌∷◌, none, some, ◌≡◌, refl, ap, ◌∙◌, All,
}
use silkoroutine.Coro.Task.{
  Body, monostate, value, running, at_end, Frame, State, Control, run, idle, terminated, step,
  steps, perform, start, start_void,
}
use silkoroutine.Coro.Direct.{Direct, returns, waits, terminates, eval}
use silkoroutine.Coro.Steps.{steps-add, at}
use silkoroutine.Coro.Ends.{IsDestroyed, Ends, exec}

-- The frame of a task that was started with a completion handler, at its end.
abbrev pub ended : Bool → ℕ → ℕ → Frame
ended void h v = record {
  is_void = void;
  result = if void then monostate else value v;
  caller_coro = none;
  completion_handler = some h;
  point = at_end;
}

-- What a task that was started with the completion handler `h` comes to.
abbrev pub Completes : Bool → ℕ → Direct → Control × State → Type 0
Completes void h (returns v ops rest) x =
    (n : ℕ) × (added : List Frame) × All IsDestroyed added
    × (steps n x ≡ (
      idle,
      record {
        frames = ended void h v ∷ added;
        initiated = ops;
        pending = [];
        answers = rest;
        completed = h ∷ [];
      },
    ))
Completes void h (waits ops) x =
    (n : ℕ) × (t : State) × (steps n x ≡ (idle, t))
    × (t.initiated ≡ ops)
    × (t.answers ≡ [])
    × (t.completed ≡ [])
Completes void h (terminates ops) x =
    (n : ℕ) × (t : State) × (steps n x ≡ (terminated, t)) × (t.initiated ≡ ops) × (t.completed ≡ [])

root : Bool → ℕ → Frame
root void h = record {
  is_void = void;
  result = monostate;
  caller_coro = none;
  completion_handler = some h;
  point = running;
}

completed :
    (void : Bool) (h : ℕ) (d : Direct) (x y : Control × State)
    → step x ≡ y
    → Ends 0 (root void h ∷ []) [] [] d y
    → Completes void h d x
unfolding steps step perform root
completed true h (returns v ops rest) x y e (n, added, gone, ran) =
    (suc n + 1, added, gone, steps-add (suc n) 1 x ∙ ap (λ z. step (steps n z)) e ∙ ap step ran)
completed false h (returns v ops rest) x y e (n, added, gone, ran) =
    (suc n + 1, added, gone, steps-add (suc n) 1 x ∙ ap (λ z. step (steps n z)) e ∙ ap step ran)
completed void h (waits ops) x y e (n, t, ran, i, a, c) = (suc n, t, ap (steps n) e ∙ ran, i, a, c)
completed void h (terminates ops) x y e (n, t, ran, i, c) = (suc n, t, ap (steps n) e ∙ ran, i, c)

-- A task that is started, of either template, for every coroutine and every row of answers: after
-- enough steps it has come to what the direct reading of its body comes to, with the same
-- operations. Where that returns a value, the promise of a `task<T>` has this value, the completion
-- handler was called once, the same answers are left, and the frames of all other tasks are
-- destroyed. Where it waits, so does the thread, and all answers are used. Where an exception
-- leaves a body, the program is terminated.
pub start-eval :
    (b : Body) (h : ℕ) (xs : List ℕ)
    → Completes false h (eval b xs) (start b h xs)
      × Completes true h (eval b xs) (start_void b h xs)
unfolding step root
start-eval b h xs = (
  completed false h (eval b xs) (start b h xs) (run 0 b, at (root false h ∷ []) [] xs []) refl
      (exec b 0 (root false h ∷ []) (root false h) [] xs [] refl refl),
  completed true h (eval b xs) (start_void b h xs) (run 0 b, at (root true h ∷ []) [] xs []) refl
      (exec b 0 (root true h ∷ []) (root true h) [] xs [] refl refl),
)
