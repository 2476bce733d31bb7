-- ===== src/Coro/Ends.antt =====
-- What the run of a body in a frame comes to, by induction on the body.
use silkoroutine.Common.{
  Bool, true, false, ℕ, ◌+◌, List, [], ◌∷◌, ◌++◌, some, ◌≡◌, refl, sym, ap, ◌∙◌, subst, All,
  All-append, length, get_elem?, append-nil, append_assoc,
}
use silkoroutine.Coro.Task.{
  Body, co_return, throws, co_await_task, co_await_void, co_await_op, Point, at_start, running,
  destroyed, awaiting_task, awaiting_void, Frame, State, Control, run, resume, idle, terminated,
  stands, returned, step, steps, perform,
}
use silkoroutine.Coro.Direct.{Direct, returns, waits, terminates, after_ops, and_then, eval}
use silkoroutine.Coro.Frames.{get_elem?-append}
use silkoroutine.Coro.Steps.{
  steps-add, at, child_of, get_child, child_starts, child_returns, waiting, as_long, task_called,
  void_called, task_resumed, void_resumed, op_answered,
}

abbrev pub IsDestroyed : Frame → Type 0
IsDestroyed x = x.point ≡ destroyed

-- What the run of a body in the frame `f` comes to. When it returns, all frames are as they were,
-- and those that were added are destroyed.
abbrev pub Ends : ℕ → List Frame → List ℕ → List ℕ → Direct → Control × State → Type 0
Ends f frames initiated completed (returns v ops rest) x =
    (n : ℕ) × (added : List Frame) × All IsDestroyed added
    × (steps n x ≡ (run f (co_return v), at (frames ++ added) (initiated ++ ops) rest completed))
Ends f frames initiated completed (waits ops) x =
    (n : ℕ) × (t : State) × (steps n x ≡ (idle, t))
    × (t.initiated ≡ initiated ++ ops)
    × (t.answers ≡ [])
    × (t.completed ≡ completed)
Ends f frames initiated completed (terminates ops) x =
    (n : ℕ) × (t : State) × (steps n x ≡ (terminated, t))
    × (t.initiated ≡ initiated ++ ops)
    × (t.completed ≡ completed)

module _ (f : ℕ) (frames : List Frame) (io cs : List ℕ) where
  -- Steps that come before.
  before :
      (d : Direct) (n : ℕ) (x y : Control × State)
      → steps n x ≡ y
      → Ends f frames io cs d y
      → Ends f frames io cs d x
  before (returns v ops rest) n x y e (m, added, gone, ran) =
      (n + m, added, gone, steps-add n m x ∙ ap (steps m) e ∙ ran)
  before (waits ops) n x y e (m, t, ran, i, a, c) =
      (n + m, t, steps-add n m x ∙ ap (steps m) e ∙ ran, i, a, c)
  before (terminates ops) n x y e (m, t, ran, i, c) =
      (n + m, t, steps-add n m x ∙ ap (steps m) e ∙ ran, i, c)

  -- Frames and operations that were added before.
  extended :
      (d : Direct) (added : List Frame) (ops : List ℕ) (x : Control × State)
      → All IsDestroyed added
      → Ends f (frames ++ added) (io ++ ops) cs d x
      → Ends f frames io cs (after_ops ops d) x
  extended (returns v more rest) added ops x gone (m, new, new_gone, ran) =
      (m, added ++ new, All-append IsDestroyed added new gone new_gone, simp (append_assoc) at ran)
  extended (waits more) added ops x gone (m, t, ran, i, a, c) =
      (m, t, ran, i ∙ append_assoc io ops more, a, c)
  extended (terminates more) added ops x gone (m, t, ran, i, c) =
      (m, t, ran, i ∙ append_assoc io ops more, c)

-- A task that was called comes to its end, and then the caller, which stands at `p`, goes on.
task_ends :
    (void : Bool) (f : ℕ) (frames : List Frame) (p : Point) (next : ℕ → Body) (io cs : List ℕ)
    (g : ℕ → List ℕ → Direct) (d : Direct) (y : Control × State)
    → ((v : ℕ) (ys : List Frame) (ops rest : List ℕ)
        → let c = returned v (child_of void f running) in
          step (resume f, at (waiting f frames p ++ c ∷ ys) (io ++ ops) rest cs)
          ≡ (run f (next v), at (frames ++ stands destroyed c ∷ ys) (io ++ ops) rest cs))
    → Ends (length frames) (waiting f frames p ++ child_of void f running ∷ []) io cs d y
    → ((v : ℕ) (added : List Frame) (ops rest : List ℕ)
        → Ends f
            (frames ++ added)
            (io ++ ops)
            cs
            (g v rest)
            (run f (next v), at (frames ++ added) (io ++ ops) rest cs))
    → Ends f frames io cs (and_then d g) y
unfolding steps
task_ends void f frames p next io cs g (waits ops) y resumed e go = e
task_ends void f frames p next io cs g (terminates ops) y resumed e go = e
task_ends void f frames p next io cs g (returns v ops rest) y resumed (n, ys, gone, ran) go =
    let c = length frames in
    let front = waiting f frames p in
    let d = after_ops ops (g v rest) in
    let last = returned v (child_of void f running) in
    let there : Control × State =
      (run c (co_return v), at (front ++ child_of void f running ∷ ys) (io ++ ops) rest cs) in
    let back : Control × State = (resume f, at (front ++ last ∷ ys) (io ++ ops) rest cs) in
    let all = stands destroyed last ∷ ys in
    let on_again : Control × State = (run f (next v), at (frames ++ all) (io ++ ops) rest cs) in
    before f frames io cs d n y there
      (ran
        ∙ ap (λ (z : List Frame). (run c (co_return v), at z (io ++ ops) rest cs))
            (append_assoc front (child_of void f running ∷ []) ys))
      (before f frames io cs d 1 there back
        (child_returns c front (as_long f frames p) void f (io ++ ops) rest cs v ys)
        (before f frames io cs d 1 back on_again (resumed v ys ops rest)
          (extended f frames io cs (g v rest) all ops on_again (refl, gone) (go v all ops rest))))

pub exec :
    (b : Body) (f : ℕ) (frames : List Frame) (x : Frame) (io xs cs : List ℕ)
    → get_elem? frames f ≡ some x
    → x.point ≡ running
    → Ends f frames io cs (eval b xs) (run f b, at frames io xs cs)
unfolding eval steps step perform
exec (co_return v) f frames x io xs cs own on = (
  0,
  [],
  tt,
  ap (λ (z : List Frame). (run f (co_return v), at z io xs cs)) (sym (append-nil frames))
      ∙ ap (λ (z : List ℕ). (run f (co_return v), at (frames ++ []) z xs cs)) (sym (append-nil io)),
)
exec throws f frames x io xs cs own on = (1, at frames io xs cs, refl, sym (append-nil io), refl)
exec (co_await_op op k) f frames x io [] cs own on =
    (1, (perform f (co_await_op op k) (at frames io [] cs)).1, refl, refl, refl, refl)
exec (co_await_op op k) f frames x io (a ∷ xs) cs own on =
    let d = eval (k a) xs in
    let after : Control × State = (run f (k a), at frames (io ++ op ∷ []) xs cs) in
    before f frames io cs (after_ops (op ∷ []) d) 3
      (run f (co_await_op op k), at frames io (a ∷ xs) cs) after
      (op_answered f frames x own on io xs cs k op a)
      (extended f frames io cs d [] (op ∷ []) after tt (
        subst (λ (z : List Frame). Ends f z (io ++ op ∷ []) cs d after) (sym (append-nil frames))
          (exec (k a) f frames x (io ++ op ∷ []) xs cs own on)))
exec (co_await_task b k) f frames x io xs cs own on =
    let c = length frames in
    let p = awaiting_task c k in
    let front = waiting f frames p in
    let g : ℕ → List ℕ → Direct = λ v rest. eval (k v) rest in
    let d = and_then (eval b xs) g in
    let child = child_of false f running in
    let begun : Control × State = (run c b, at (front ++ child ∷ []) io xs cs) in
    let called : Control × State =
      (resume c, at (front ++ child_of false f (at_start b) ∷ []) io xs cs) in
    before f frames io cs d 1 (run f (co_await_task b k), at frames io xs cs) called
      (task_called f frames x own on io xs cs b k)
      (before f frames io cs d 1 called begun
        (child_starts c front (as_long f frames p) false f io xs cs b)
        (task_ends false f frames p k io cs g (eval b xs) begun
          (λ v ys ops rest. task_resumed f frames x own on (io ++ ops) rest cs k v ys)
          (exec b c (front ++ child ∷ []) child io xs cs
            (get_child c front (as_long f frames p) child []) refl)
          (λ v added ops rest.
            exec (k v) f (frames ++ added) x (io ++ ops) rest cs
              (get_elem?-append f frames added x own) on)))
exec (co_await_void b k) f frames x io xs cs own on =
    let c = length frames in
    let p = awaiting_void c k in
    let front = waiting f frames p in
    let g : ℕ → List ℕ → Direct = λ v rest. eval k rest in
    let d = and_then (eval b xs) g in
    let child = child_of true f running in
    let begun : Control × State = (run c b, at (front ++ child ∷ []) io xs cs) in
    let called : Control × State =
      (resume c, at (front ++ child_of true f (at_start b) ∷ []) io xs cs) in
    before f frames io cs d 1 (run f (co_await_void b k), at frames io xs cs) called
      (void_called f frames x own on io xs cs b k)
      (before f frames io cs d 1 called begun
        (child_starts c front (as_long f frames p) true f io xs cs b)
        (task_ends true f frames p (λ v. k) io cs g (eval b xs) begun
          (λ v ys ops rest. void_resumed f frames x own on (io ++ ops) rest cs k v ys)
          (exec b c (front ++ child ∷ []) child io xs cs
            (get_child c front (as_long f frames p) child []) refl)
          (λ v added ops rest.
            exec k f (frames ++ added) x (io ++ ops) rest cs (get_elem?-append f frames added x own)
              on)))
