-- ===== src/Coro/Task.antt =====
-- silkoroutine/coro/task.hpp and use_await.hpp. A coroutine is its body, and a frame on the heap
-- for each call of it. A value of a task is a number; the value of a body in a `task<void>` is
-- dropped. An operation of asio is its argument, and the environment completes it with an answer
-- after the coroutine was suspended.
use silkoroutine.Common.{
  ℕ, zero, suc, Bool, true, false, List, [], ◌∷◌, ◌++◌, Option, none, some, length, get_elem?,
  if◌then◌else◌,
}

-- `co_await_task` is `co_await` on the task that a call of another coroutine gives, with what comes
-- after it; `co_await_void` is the same for a `task<void>`; `co_await_op` is `co_await` on an
-- operation that was given `use_await`.
pub data Body : Type 0 where
  co_return : ℕ → Body
  throws : Body
  co_await_task : Body → (ℕ → Body) → Body
  co_await_void : Body → Body → Body
  co_await_op : ℕ → (ℕ → Body) → Body

pub data Result : Type 0 where
  monostate : Result
  value : ℕ → Result
  exception_ptr : Result

-- Where a coroutine stands. `awaiting_task` has the frame of the task, `awaiting_op` has the member
-- `result_` of the awaitable.
pub data Point : Type 0 where
  at_start : Body → Point
  running : Point
  awaiting_task : ℕ → (ℕ → Body) → Point
  awaiting_void : ℕ → Body → Point
  awaiting_op : Option ℕ → (ℕ → Body) → Point
  at_end : Point
  destroyed : Point

-- A frame, with `promise_type`. That of a `task<void>` has no result: it stays `monostate` here.
pub record Frame : Type 0 where
  pub is_void : Bool
  pub result : Result
  pub caller_coro : Option ℕ
  pub completion_handler : Option ℕ
  pub point : Point

-- `pending` are the frames that the handlers of operations will resume, and `answers` the results
-- that the environment has for them; `initiated` are the operations that were started, and
-- `completed` the completion handlers that were called.
pub record State : Type 0 where
  pub frames : List Frame
  pub initiated : List ℕ
  pub pending : List ℕ
  pub answers : List ℕ
  pub completed : List ℕ

-- What the thread does: it runs the body of a frame, resumes a frame, or waits. `fault` is the use
-- of a frame that is gone or is not suspended, or of a null pointer.
pub data Control : Type 0 where
  run : ℕ → Body → Control
  resume : ℕ → Control
  idle terminated fault : Control

abbrev pub modify : ℕ → (Frame → Frame) → List Frame → List Frame
modify i g [] = []
modify zero g (x ∷ xs) = g x ∷ xs
modify (suc i) g (x ∷ xs) = x ∷ modify i g xs

abbrev pub stands : Point → Frame → Frame
stands p x = record x { point = p }

-- `get_return_object` and `initial_suspend`.
abbrev pub new_frame : Body → Frame
new_frame b = record {
  is_void = false;
  result = monostate;
  caller_coro = none;
  completion_handler = none;
  point = at_start b;
}

-- The same of `task<void>`.
abbrev pub new_void_frame : Body → Frame
new_void_frame b = record (new_frame b) { is_void = true }

-- `return_value`, with the point of `final_suspend`.
abbrev pub return_value : ℕ → Frame → Frame
return_value v x = record x { result = value v; point = at_end }

-- `return_void`.
abbrev pub return_void : Frame → Frame
return_void x = record x { point = at_end }

abbrev pub returned : ℕ → Frame → Frame
returned v x = if x.is_void then return_void x else return_value v x

-- `Awaiter::await_suspend` of `final_suspend`.
abbrev pub final_await_suspend : Frame → State → Control × State
final_await_suspend self s = elim self.caller_coro [
  | some c ↦ (resume c, s)
  | none ↦ elim self.completion_handler [
    | some h ↦ (idle, record s { completed = s.completed ++ h ∷ [] })
    | none ↦ (idle, s)
  ]
]

abbrev pub finish : ℕ → ℕ → Option Frame → State → Control × State
finish f v none s = (fault, s)
finish f v (some self) s =
    final_await_suspend self (record s { frames = modify f (returned v) s.frames })

-- `task::await_suspend` by the frame `f`: it stores the caller and resumes the child.
abbrev pub await_suspend : ℕ → ℕ → State → Control × State
await_suspend f child s = (
  resume child,
  record s { frames = modify child (λ x. record x { caller_coro = some f }) s.frames },
)

-- `awaitable::await_suspend` of use_await.hpp: the operation is started, with a handler that holds
-- the frame.
abbrev pub op_await_suspend : ℕ → ℕ → (ℕ → Body) → State → Control × State
op_await_suspend f op k s = (
  idle,
  record s {
    frames = modify f (stands (awaiting_op none k)) s.frames;
    initiated = s.initiated ++ op ∷ [];
    pending = s.pending ++ f ∷ [];
  },
)

-- The body of a frame, up to its next suspension. An exception ends in `unhandled_exception`, which
-- terminates the program.
unfoldable pub perform : ℕ → Body → State → Control × State
perform f (co_return v) s = finish f v (get_elem? s.frames f) s
perform f throws s = (terminated, s)
perform f (co_await_task b k) s =
    let child = length s.frames in
    await_suspend f child (record s {
      frames = modify f (stands (awaiting_task child k)) (s.frames ++ new_frame b ∷ []);
    })
perform f (co_await_void b k) s =
    let child = length s.frames in
    await_suspend f child (record s {
      frames = modify f (stands (awaiting_void child k)) (s.frames ++ new_void_frame b ∷ []);
    })
perform f (co_await_op op k) s = op_await_suspend f op k s

-- Whether `coro.destroy()` is allowed.
abbrev is_suspended : Point → Bool
is_suspended running = false
is_suspended destroyed = false
is_suspended _ = true

-- `task::await_resume`, and then `~task`. `std::get` of a result that is none throws.
abbrev pub await_resume : ℕ → ℕ → (ℕ → Body) → Option Frame → State → Control × State
await_resume f child k none s = (fault, s)
await_resume f child k (some c) s = elim c.result [
  | monostate ↦ (terminated, s)
  | exception_ptr ↦ (terminated, s)
  | value v ↦
      if is_suspended c.point
      then (
        run f (k v),
        record s { frames = modify f (stands running) (modify child (stands destroyed) s.frames) },
      )
      else (fault, s)
]

-- `task<void>::await_resume`, and then `~task`.
abbrev pub await_resume_void : ℕ → ℕ → Body → Option Frame → State → Control × State
await_resume_void f child k none s = (fault, s)
await_resume_void f child k (some c) s =
    if is_suspended c.point
    then (
      run f k,
      record s { frames = modify f (stands running) (modify child (stands destroyed) s.frames) },
    )
    else (fault, s)

abbrev pub resume_at : ℕ → Point → State → Control × State
resume_at f (at_start b) s = (run f b, record s { frames = modify f (stands running) s.frames })
resume_at f (awaiting_task child k) s = await_resume f child k (get_elem? s.frames child) s
resume_at f (awaiting_void child k) s = await_resume_void f child k (get_elem? s.frames child) s
resume_at f (awaiting_op none k) s = (fault, s)
resume_at f (awaiting_op (some a) k) s =
    (run f (k a), record s { frames = modify f (stands running) s.frames })
resume_at f running s = (fault, s)
resume_at f at_end s = (fault, s)
resume_at f destroyed s = (fault, s)

-- `coroutine_handle::resume`.
abbrev pub resume_frame : ℕ → Option Frame → State → Control × State
resume_frame f none s = (fault, s)
resume_frame f (some x) s = resume_at f x.point s

-- The member `result_` of the awaitable that a frame waits for.
abbrev pub set_result : ℕ → Frame → Frame
set_result a x = elim x.point [
  | awaiting_op r k ↦ record x { point = awaiting_op (some a) k }
  | _ ↦ x
]

-- `handler::operator()` of the first operation that is pending, with the next answer.
abbrev pub handle : List ℕ → List ℕ → State → Control × State
handle [] xs s = (idle, s)
handle (f ∷ fs) [] s = (idle, s)
handle (f ∷ fs) (a ∷ xs) s =
    (resume f, record s { frames = modify f (set_result a) s.frames; pending = fs; answers = xs })

unfoldable pub step : Control × State → Control × State
unfolding perform
step (run f b, s) = perform f b s
step (resume f, s) = resume_frame f (get_elem? s.frames f) s
step (idle, s) = handle s.pending s.answers s
step (terminated, s) = (terminated, s)
step (fault, s) = (fault, s)

unfoldable pub steps : ℕ → Control × State → Control × State
steps zero m = m
steps (suc n) m = steps n (step m)

-- `task::start` of a task that a call of a coroutine gave.
abbrev pub start_frame : Frame → ℕ → List ℕ → Control × State
start_frame x h xs = (
  resume 0,
  record {
    frames = record x { completion_handler = some h } ∷ [];
    initiated = [];
    pending = [];
    answers = xs;
    completed = [];
  },
)

abbrev pub start : Body → ℕ → List ℕ → Control × State
start b h xs = start_frame (new_frame b) h xs

-- `task<void>::start`.
abbrev pub start_void : Body → ℕ → List ℕ → Control × State
start_void b h xs = start_frame (new_void_frame b) h xs
