-- ===== src/Coro/Steps.antt =====
-- The steps of a frame that waits for a task, and of the task's frame.
use silkoroutine.Common.{
  Bool, true, false, ℕ, zero, suc, ◌+◌, List, [], ◌∷◌, ◌++◌, none, some, ◌≡◌, sym, ap, ◌∙◌, subst,
  length, get_elem?, arith,
}
use silkoroutine.Coro.Task.{
  Body, co_return, co_await_task, co_await_void, co_await_op, monostate, Point, at_start, running,
  destroyed, awaiting_task, awaiting_void, awaiting_op, Frame, State, Control, run, resume, modify,
  stands, returned, set_result, new_frame, new_void_frame, step, steps, perform, resume_frame,
  finish, await_resume, await_resume_void,
}
use silkoroutine.Coro.Frames.{
  length-modify, get_elem?-modify, get_elem?-append, modify-append, get_elem?-added, modify-added,
  modify-modify, modify-twice,
}

add_suc : (m n : ℕ) → suc m + n ≡ suc (m + n)
add_suc m n = omega arith

pub steps-add : (m n : ℕ) (x : Control × State) → steps (m + n) x ≡ steps n (steps m x)
unfolding steps
steps-add zero n x = let same : 0 + n ≡ n = omega arith in ap (λ k. steps k x) same
steps-add (suc m) n x = rw (add_suc m n) (steps-add m n (step x))

-- A state in which no operation is pending.
abbrev pub at : List Frame → List ℕ → List ℕ → List ℕ → State
at frames initiated answers completed = record {
  frames = frames;
  initiated = initiated;
  pending = [];
  answers = answers;
  completed = completed;
}

-- The frame of a task that `f` waits for.
abbrev pub child_of : Bool → ℕ → Point → Frame
child_of void f p = record {
  is_void = void;
  result = monostate;
  caller_coro = some f;
  completion_handler = none;
  point = p;
}

-- The frame `c`, behind as many frames.
module _ (c : ℕ) (front : List Frame) (e : length front ≡ c) where
  pub get_child : (x : Frame) (ys : List Frame) → get_elem? (front ++ x ∷ ys) c ≡ some x
  get_child x ys =
      subst (λ n. get_elem? (front ++ x ∷ ys) n ≡ some x) e (get_elem?-added front ys x)

  modify_child :
      (g : Frame → Frame) (x : Frame) (ys : List Frame)
      → modify c g (front ++ x ∷ ys) ≡ front ++ g x ∷ ys
  modify_child g x ys =
      subst (λ n. modify n g (front ++ x ∷ ys) ≡ front ++ g x ∷ ys) e (modify-added g front ys x)

  module _ (void : Bool) (f : ℕ) (io xs cs : List ℕ) where
    pub child_starts :
        (b : Body)
        → step (resume c, at (front ++ child_of void f (at_start b) ∷ []) io xs cs)
          ≡ (run c b, at (front ++ child_of void f running ∷ []) io xs cs)
    unfolding step
    child_starts b =
        let x = child_of void f (at_start b) in
        ap (λ o. resume_frame c o (at (front ++ x ∷ []) io xs cs)) (get_child x [])
        ∙ ap (λ z. (run c b, at z io xs cs)) (modify_child (stands running) x [])

    pub child_returns :
        (v : ℕ) (ys : List Frame)
        → step (run c (co_return v), at (front ++ child_of void f running ∷ ys) io xs cs)
          ≡ (resume f, at (front ++ returned v (child_of void f running) ∷ ys) io xs cs)
    unfolding step perform
    child_returns v ys =
        let x = child_of void f running in
        ap (λ o. finish c v o (at (front ++ x ∷ ys) io xs cs)) (get_child x ys)
        ∙ ap (λ z. (resume f, at z io xs cs)) (modify_child (returned v) x ys)

-- The frames, where the coroutine of `f` stands at `p`.
abbrev pub waiting : ℕ → List Frame → Point → List Frame
waiting f frames p = modify f (stands p) frames

pub as_long :
    (f : ℕ) (frames : List Frame) (p : Point) → length (waiting f frames p) ≡ length frames
as_long f frames p = length-modify f (stands p) frames

module _ (f : ℕ) (frames : List Frame) (x : Frame) (own : get_elem? frames f ≡ some x)
    (on : x.point ≡ running) where
  again : (p : Point) → stands running (stands p x) ≡ x
  again p = ap (λ (q : Point). stands q x) (sym on)

  -- The frames behind a call, by the new frame `y` and the point `p`.
  frames_called :
      (p : Point) (y : Frame)
      → modify
          (length frames)
          (λ z. record z { caller_coro = some f })
          (modify f (stands p) (frames ++ y ∷ []))
        ≡ waiting f frames p ++ record y { caller_coro = some f } ∷ []
  frames_called p y =
      ap (modify (length frames) (λ z. record z { caller_coro = some f }))
        (modify-append f (stands p) frames (y ∷ []) x own)
      ∙ modify_child (length frames) (waiting f frames p) (as_long f frames p)
          (λ z. record z { caller_coro = some f }) y []

  held : (p : Point) (ys : List Frame) → get_elem? (waiting f frames p ++ ys) f ≡ some (stands p x)
  held p ys =
      get_elem?-append f (waiting f frames p) ys (stands p x)
        (get_elem?-modify f (stands p) frames x own)

  -- The frames behind the return, by the new frame `c`, which is destroyed.
  frames_resumed :
      (p : Point) (c : Frame) (ys : List Frame)
      → modify f
          (stands running)
          (modify (length frames) (stands destroyed) (waiting f frames p ++ c ∷ ys))
        ≡ frames ++ stands destroyed c ∷ ys
  frames_resumed p c ys =
      ap (modify f (stands running)) (
        modify_child (length frames) (waiting f frames p) (as_long f frames p) (stands destroyed) c
          ys)
      ∙ modify-append f (stands running) (waiting f frames p) (stands destroyed c ∷ ys) (stands p x)
          (get_elem?-modify f (stands p) frames x own)
      ∙ ap (λ z. z ++ stands destroyed c ∷ ys)
          (modify-modify f (stands running) (stands p) frames x own (again p))

  get_last :
      (p : Point) (c : Frame) (ys : List Frame)
      → get_elem? (waiting f frames p ++ c ∷ ys) (length frames) ≡ some c
  get_last p c ys = get_child (length frames) (waiting f frames p) (as_long f frames p) c ys

  module _ (io xs cs : List ℕ) where
    pub task_called :
        (b : Body) (k : ℕ → Body)
        → let p = awaiting_task (length frames) k in
          step (run f (co_await_task b k), at frames io xs cs) ≡ (
            resume (length frames),
            at (waiting f frames p ++ child_of false f (at_start b) ∷ []) io xs cs,
          )
    unfolding step perform
    task_called b k =
        ap (λ z. (resume (length frames), at z io xs cs))
          (frames_called (awaiting_task (length frames) k) (new_frame b))

    pub void_called :
        (b k : Body)
        → let p = awaiting_void (length frames) k in
          step (run f (co_await_void b k), at frames io xs cs) ≡ (
            resume (length frames),
            at (waiting f frames p ++ child_of true f (at_start b) ∷ []) io xs cs,
          )
    unfolding step perform
    void_called b k =
        ap (λ z. (resume (length frames), at z io xs cs))
          (frames_called (awaiting_void (length frames) k) (new_void_frame b))

    pub task_resumed :
        (k : ℕ → Body) (v : ℕ) (ys : List Frame)
        → let c = returned v (child_of false f running) in
          let p = awaiting_task (length frames) k in
          step (resume f, at (waiting f frames p ++ c ∷ ys) io xs cs)
          ≡ (run f (k v), at (frames ++ stands destroyed c ∷ ys) io xs cs)
    unfolding step
    task_resumed k v ys =
        let c = returned v (child_of false f running) in
        let p = awaiting_task (length frames) k in
        let s = at (waiting f frames p ++ c ∷ ys) io xs cs in
        ap (λ o. resume_frame f o s) (held p (c ∷ ys))
        ∙ ap (λ o. await_resume f (length frames) k o s) (get_last p c ys)
        ∙ ap (λ z. (run f (k v), at z io xs cs)) (frames_resumed p c ys)

    pub void_resumed :
        (k : Body) (v : ℕ) (ys : List Frame)
        → let c = returned v (child_of true f running) in
          let p = awaiting_void (length frames) k in
          step (resume f, at (waiting f frames p ++ c ∷ ys) io xs cs)
          ≡ (run f k, at (frames ++ stands destroyed c ∷ ys) io xs cs)
    unfolding step
    void_resumed k v ys =
        let c = returned v (child_of true f running) in
        let p = awaiting_void (length frames) k in
        let s = at (waiting f frames p ++ c ∷ ys) io xs cs in
        ap (λ o. resume_frame f o s) (held p (c ∷ ys))
        ∙ ap (λ o. await_resume_void f (length frames) k o s) (get_last p c ys)
        ∙ ap (λ z. (run f k, at z io xs cs)) (frames_resumed p c ys)

    pub op_answered :
        (k : ℕ → Body) (op a : ℕ)
        → steps 3 (run f (co_await_op op k), at frames io (a ∷ xs) cs)
          ≡ (run f (k a), at frames (io ++ op ∷ []) xs cs)
    unfolding steps step perform
    op_answered k op a =
        let p = awaiting_op none k in
        let front = modify f (stands p) frames in
        let s = at (modify f (set_result a) front) (io ++ op ∷ []) xs cs in
        let at_answer =
          get_elem?-modify f (set_result a) front (stands p x)
            (get_elem?-modify f (stands p) frames x own) in
        ap (λ o. resume_frame f o s) at_answer
        ∙ ap (λ z. (run f (k a), at z (io ++ op ∷ []) xs cs))
            (ap (modify f (stands running)) (modify-twice f (set_result a) (stands p) frames)
              ∙ modify-modify f (stands running) (λ z. set_result a (stands p z)) frames x own
                  (again p))
