-- ===== src/Sentry/Safety.antt =====
-- Every run of the clients, with any number of calls at the same time, each of a client of its own.
use silkoroutine.Common.{
  ℕ, ◌+◌, Bool, true, false, List, [], ◌∷◌, ◌++◌, map, Option, none, some, ◌≡◌, ◌≢◌, refl, ap, ◌∙◌,
  length, get_elem?, ◌==◌, arith, Bool-cases, inl, inr,
}
use silkoroutine.Remote.{StatusData}
use silkoroutine.Kv.World.{io_error, Outcome, ok, raised, fault}
use silkoroutine.Kv.Exec.{◌>>=◌}
use silkoroutine.Sentry.Client.{
  Operation, World, new_world, set_status, initiate_async_set_status, on_status, do_complete, Event,
  start, finished, run_one, count, remove, run_posted, deliver, run,
}
use silkoroutine.Sentry.Calls.{
  count-last, count-remove, live_at, live_at-last, live_at-set, freed, freed-last, freed-set,
  freed_all, weight,
}

-- The live operations are those of the calls in flight and those on the queue, once each; and a
-- handler was called as often as operations of it were given back.
pub record Inv (w : World) : Type 0 where
  pub held : (j : ℕ) → count j w.in_flight + count j w.posted ≡ live_at w.operations j
  pub called : (h : ℕ) → count h w.upcalls ≡ freed h w.operations

-- A run that ends in an exception has the one of the source.
abbrev pub IsSafe : Outcome World → Type 0
IsSafe (ok w) = Inv w
IsSafe (raised e w) = e ≡ io_error "failure in SET_STATUS"
IsSafe fault = ⊥

pub new_world-Inv : Inv new_world
new_world-Inv = record { held = λ j. refl; called = λ h. refl }

initiate-Inv :
    (c : ℕ) (d : StatusData) (h : ℕ) (w : World)
    → count c w.used ≡ 0
    → Inv w
    → (u : World) × (initiate_async_set_status c d h w ≡ ok u) × (u.used ≡ w.used ++ c ∷ []) × Inv u
unfolding initiate_async_set_status set_status
initiate-Inv c d h w e v = (
  record w {
    used = w.used ++ c ∷ [];
    sent = w.sent ++ d ∷ [];
    in_flight = w.in_flight ++ length w.operations ∷ [];
    operations = w.operations ++ record { handler = h; is_live = true } ∷ [];
  },
  simp e refl,
  refl,
  record {
    held = λ j. omega (
      arith,
      v.held j,
      count-last j w.in_flight (length w.operations),
      live_at-last w.operations h j,
    );
    called = λ k. omega (arith, v.called k, freed-last k w.operations h);
  },
)

on_status-IsSafe :
    (op : ℕ) (b : Bool) (w : World)
    → count op w.in_flight ≢ 0
    → Inv w
    → IsSafe (on_status op b (record w { in_flight = remove op w.in_flight }))
unfolding on_status
on_status-IsSafe op false w e v = refl
on_status-IsSafe op true w e v = record {
  held = λ j. omega (arith, v.held j, count-remove j op w.in_flight e, count-last j w.posted op);
  called = v.called;
}

-- An operation on the queue is live.
pub posted-live :
    (w : World) (op : ℕ) (ops : List ℕ) → w.posted ≡ op ∷ ops → Inv w → live_at w.operations op ≢ 0
posted-live w op ops e v = ground (arith, v.held op, ap (count op) e)

complete-IsSafe :
    (w : World) (op : ℕ) (ops : List ℕ) (o : Option Operation)
    → get_elem? w.operations op ≡ o
    → weight o ≢ 0
    → w.posted ≡ op ∷ ops
    → Inv w
    → IsSafe (do_complete op o (record w { posted = ops }))
unfolding do_complete
complete-IsSafe w op ops none g live e v = absurd (live refl)
complete-IsSafe w op ops (some o) g live e v =
    let l : o.is_live ≡ true = ground arith in
    simp l (record {
      held = λ j. ground (arith, v.held j, ap (count j) e, live_at-set w.operations op j o g l);
      called = λ h.
          omega (
            arith,
            v.called h,
            count-last h w.upcalls o.handler,
            freed-set h w.operations op o g l,
          );
    })

run_posted-IsSafe : (w : World) (l : List ℕ) → w.posted ≡ l → Inv w → IsSafe (run_posted l w)
run_posted-IsSafe w [] e v = v
run_posted-IsSafe w (op ∷ ops) e v =
    complete-IsSafe w op ops (get_elem? w.operations op) refl (posted-live w op ops e v) e v

pub finished-IsSafe : (op : ℕ) (b : Bool) (w : World) → Inv w → IsSafe (deliver (finished op b) w)
unfolding deliver
finished-IsSafe op b w v = elim (Bool-cases (count op w.in_flight == 0)) [
  | inl e ↦ rw e v
  | inr e ↦ rw e (on_status-IsSafe op b w (ground arith) v)
]

pub run_one-IsSafe : (w : World) → Inv w → IsSafe (deliver run_one w)
unfolding deliver
run_one-IsSafe w v = run_posted-IsSafe w w.posted refl v

-- No client is given a call after this.
abbrev KeepsUsed : List ℕ → Outcome World → Type 0
KeepsUsed used (ok u) = u.used ≡ used
KeepsUsed used (raised e u) = Unit
KeepsUsed used fault = Unit

finished-KeepsUsed : (op : ℕ) (b : Bool) (w : World) → KeepsUsed w.used (deliver (finished op b) w)
unfolding deliver on_status
finished-KeepsUsed op false w = elim (Bool-cases (count op w.in_flight == 0)) [
  | inl e ↦ rw e refl
  | inr e ↦ rw e tt
]
finished-KeepsUsed op true w = elim (Bool-cases (count op w.in_flight == 0)) [
  | inl e ↦ rw e refl
  | inr e ↦ rw e refl
]

complete-KeepsUsed :
    (op : ℕ) (o : Option Operation) (w : World) → KeepsUsed w.used (do_complete op o w)
unfolding do_complete
complete-KeepsUsed op none w = tt
complete-KeepsUsed op (some o) w = elim (Bool-cases o.is_live) [
  | inl e ↦ rw e refl
  | inr e ↦ rw e tt
]

run_posted-KeepsUsed : (l : List ℕ) (w : World) → KeepsUsed w.used (run_posted l w)
run_posted-KeepsUsed [] w = refl
run_posted-KeepsUsed (op ∷ ops) w =
    complete-KeepsUsed op (get_elem? w.operations op) (record w { posted = ops })

run_one-KeepsUsed : (w : World) → KeepsUsed w.used (deliver run_one w)
unfolding deliver
run_one-KeepsUsed w = run_posted-KeepsUsed w.posted w

-- Each call is by a client of its own, which is none of `used`.
abbrev pub Separate : List ℕ → List Event → Type 0
Separate used [] = Unit
Separate used (start c d h ∷ es) = (count c used ≡ 0) × Separate (used ++ c ∷ []) es
Separate used (finished op b ∷ es) = Separate used es
Separate used (run_one ∷ es) = Separate used es

bind-IsSafe :
    (used : List ℕ) (m : Outcome World) (f : World → Outcome World)
    → IsSafe m
    → KeepsUsed used m
    → ((w : World) → Inv w → w.used ≡ used → IsSafe (f w))
    → IsSafe (m >>= f)
bind-IsSafe used (ok w) f v e k = k w v e
bind-IsSafe used (raised e w) f v i k = v
bind-IsSafe used fault f v e k = v

run-IsSafe_from : (es : List Event) (w : World) → Separate w.used es → Inv w → IsSafe (run es w)
unfolding run deliver
run-IsSafe_from [] w s v = v
run-IsSafe_from (start c d h ∷ es) w (e, s) v =
    let (u, ran, same, v') = initiate-Inv c d h w e v in
    rw ran (run-IsSafe_from es u (rw same s) v')
run-IsSafe_from (finished op b ∷ es) w s v =
    bind-IsSafe w.used (deliver (finished op b) w) (run es) (finished-IsSafe op b w v)
      (finished-KeepsUsed op b w) (λ u v' e. run-IsSafe_from es u (rw e s) v')
run-IsSafe_from (run_one ∷ es) w s v =
    bind-IsSafe w.used (deliver run_one w) (run es) (run_one-IsSafe w v) (run_one-KeepsUsed w)
      (λ u v' e. run-IsSafe_from es u (rw e s) v')

-- Whatever calls are made, each by a client of its own, and in whatever order gRPC finishes them
-- and the context runs its queue: no operation is used after it was given back, the only exception
-- is that of a status that is not ok, the live operations are those in flight or queued, once each,
-- and each handler was called as often as operations of it were given back.
pub run-IsSafe : (es : List Event) → Separate [] es → IsSafe (run es new_world)
run-IsSafe es s = run-IsSafe_from es new_world s new_world-Inv

-- Where nothing is in flight or queued any more, each handler was called exactly as often as the
-- status was set with it.
pub handlers_called :
    (w : World) (h : ℕ)
    → Inv w
    → w.in_flight ≡ []
    → w.posted ≡ []
    → count h w.upcalls ≡ count h (map (λ (o : Operation). o.handler) w.operations)
handlers_called w h v f p =
    v.called h
    ∙ freed_all h w.operations (λ j. ground (arith, v.held j, ap (count j) f, ap (count j) p))
