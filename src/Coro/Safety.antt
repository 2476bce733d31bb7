-- ===== src/Coro/Safety.antt =====
-- No frame is used after it was destroyed.
use silkoroutine.Common.{
  Bool, true, false, ℕ, zero, suc, ◌+◌, ◌-◌, List, [], ◌∷◌, ◌≡◌, ◌≢◌, refl, sym, ap, ◌∙◌, arith,
  leb, Bool-cases, inl, inr,
}
use silkoroutine.Coro.Task.{
  Body, State, Control, run, resume, idle, terminated, fault, handle, step, steps, start,
  start_void,
}
use silkoroutine.Coro.Direct.{Direct, returns, waits, terminates, eval}
use silkoroutine.Coro.Steps.{steps-add}
use silkoroutine.Coro.Runs.{Completes, start-eval}

-- Where the machine stays as it is.
abbrev IsFinal : Control × State → Type 0
IsFinal x = (x.0 ≢ fault) × (step x ≡ x)

final_stays : (n : ℕ) (x : Control × State) → step x ≡ x → steps n x ≡ x
unfolding steps
final_stays zero x h = refl
final_stays (suc n) x h = ap (steps n) h ∙ final_stays n x h

fault_stays : (n : ℕ) (x : Control × State) → x.0 ≡ fault → (steps n x).0 ≡ fault
unfolding steps step
fault_stays zero x h = h
fault_stays (suc n) (run f b, s) h = cc
fault_stays (suc n) (resume f, s) h = cc
fault_stays (suc n) (idle, s) h = cc
fault_stays (suc n) (terminated, s) h = cc
fault_stays (suc n) (fault, s) h = fault_stays n (fault, s) refl

no_answer : (fs : List ℕ) (s : State) → handle fs [] s ≡ (idle, s)
no_answer [] s = refl
no_answer (f ∷ fs) s = refl

-- A run that comes to its end was never at fault.
before_final : (n m : ℕ) (x y : Control × State) → steps n x ≡ y → IsFinal y → (steps m x).0 ≢ fault
before_final n m x y e (fine, stays) bad = elim (Bool-cases (leb m n)) [
  | inl less ↦
      let k = n - m in
      let sum : n ≡ m + k = ground arith in
      fine (
        ap (λ (z : Control × State). z.0) (sym e ∙ ap (λ j. steps j x) sum ∙ steps-add m k x)
        ∙ fault_stays k (steps m x) bad)
  | inr more ↦
      let k = m - n in
      let sum : m ≡ n + k = ground arith in
      fine (
        ap (λ (z : Control × State). z.0)
          (sym (ap (λ j. steps j x) sum ∙ steps-add n k x ∙ ap (steps k) e ∙ final_stays k y stays))
        ∙ bad)
]

safe_throughout :
    (void : Bool) (h : ℕ) (d : Direct) (x : Control × State)
    → Completes void h d x
    → (m : ℕ) → (steps m x).0 ≢ fault
unfolding step
safe_throughout void h (returns v ops rest) x (n, added, gone, ran) m =
    before_final n m x _ ran ((λ e. cc), refl)
safe_throughout void h (waits ops) x (n, t, ran, i, a, c) m =
    before_final n m x (idle, t) ran
      ((λ e. cc), ap (λ z. handle t.pending z t) a ∙ no_answer t.pending t)
safe_throughout void h (terminates ops) x (n, t, ran, i, c) m =
    before_final n m x (terminated, t) ran ((λ e. cc), refl)

-- However far a task that was started has run, of either template: no frame was resumed, read or
-- destroyed that is gone or that is not suspended, and no coroutine was resumed without the answer
-- that it waits for.
pub start_safe :
    (b : Body) (h : ℕ) (xs : List ℕ) (m : ℕ)
    → ((steps m (start b h xs)).0 ≢ fault) × ((steps m (start_void b h xs)).0 ≢ fault)
start_safe b h xs m =
    let (value_runs, void_runs) = start-eval b h xs in
    (
      safe_throughout false h (eval b xs) (start b h xs) value_runs m,
      safe_throughout true h (eval b xs) (start_void b h xs) void_runs m,
    )
