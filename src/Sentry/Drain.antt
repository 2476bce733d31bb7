-- ===== src/Sentry/Drain.antt =====
-- Calls that gRPC finishes, and a queue that the context runs.
use silkoroutine.Common.{
  ℕ, zero, suc, true, false, List, [], ◌∷◌, ◌++◌, map, some, ◌≡◌, ◌≢◌, refl, subst, sym, ap, ◌∙◌,
  get_elem?, set, ◌==◌, arith, Option-cases, inl, inr,
}
use silkoroutine.Kv.World.{Outcome, ok, raised, fault}
use silkoroutine.Kv.Exec.{◌>>=◌}
use silkoroutine.Sentry.Client.{
  Operation, World, new_world, on_status, do_complete, Event, finished, run_one, count, deliver,
  run,
}
use silkoroutine.Sentry.Calls.{weight}
use silkoroutine.Sentry.Safety.{
  Inv, IsSafe, Separate, posted-live, finished-IsSafe, run_one-IsSafe, run-IsSafe, handlers_called,
}

abbrev pub handlers_of : World → List ℕ
handlers_of w = map (λ (o : Operation). o.handler) w.operations

-- Nothing is in flight or queued, and each handler was called as often as the status was set with
-- it.
pub record IsDrained (w : World) : Type 0 where
  pub in_flight : w.in_flight ≡ []
  pub posted : w.posted ≡ []
  pub called : (h : ℕ) → count h w.upcalls ≡ count h (handlers_of w)

bind_bind :
    (m : Outcome World) (f g k : World → Outcome World)
    → ((u : World) → f u ≡ (g u >>= k))
    → (m >>= f) ≡ ((m >>= g) >>= k)
bind_bind (ok u) f g k h = h u
bind_bind (raised x u) f g k h = refl
bind_bind fault f g k h = refl

run-append : (es more : List Event) (w : World) → run (es ++ more) w ≡ (run es w >>= run more)
unfolding run
run-append [] more w = refl
run-append (e ∷ es) more w =
    bind_bind (deliver e w) (run (es ++ more)) (run es) (run more) (λ u. run-append es more u)

-- The first of the calls in flight is finished.
finish_first :
    (op : ℕ) (rest : List ℕ) (w : World)
    → w.in_flight ≡ op ∷ rest
    → deliver (finished op true) w
      ≡ ok (record w { in_flight = rest; posted = w.posted ++ op ∷ [] })
unfolding deliver on_status
finish_first op rest w e =
    let self : (op == op) ≡ true = ground arith in
    let some_left : (suc (count op rest) == 0) ≡ false = ground arith in
    simp (e, self, some_left) refl

map-set :
    (ops : List Operation) (i : ℕ) (o : Operation)
    → get_elem? ops i ≡ some o
    → map (λ (x : Operation). x.handler) (set ops i (record o { is_live = false }))
      ≡ map (λ (x : Operation). x.handler) ops
map-set [] i o e = cc
map-set (x ∷ ops) zero o e =
    let same : x ≡ o = cc in
    ap (λ (y : Operation). y.handler ∷ map (λ (x : Operation). x.handler) ops) (sym same)
map-set (x ∷ ops) (suc i) o e = ap (◌∷◌ x.handler) (map-set ops i o e)

-- The first of the queue is run.
run_first :
    (op : ℕ) (ops : List ℕ) (w : World)
    → w.posted ≡ op ∷ ops
    → Inv w
    → (u : World) × (deliver run_one w ≡ ok u)
      × (u.posted ≡ ops)
      × (u.in_flight ≡ w.in_flight)
      × (handlers_of u ≡ handlers_of w)
unfolding deliver do_complete
run_first op ops w e v = elim (Option-cases (get_elem? w.operations op)) [
  | inl none_there ↦ absurd (posted-live w op ops e v (ap weight none_there))
  | inr (o, there) ↦
      let weighs : weight (some o) ≢ 0 = λ z. posted-live w op ops e v (ap weight there ∙ z) in
      let live : o.is_live ≡ true = ground arith in
      (
        record w {
          posted = ops;
          operations = set w.operations op (record o { is_live = false });
          upcalls = w.upcalls ++ o.handler ∷ [];
        },
        simp (e, there, live) refl,
        refl,
        refl,
        map-set w.operations op o there,
      )
]

drain_posted :
    (ops : List ℕ) (w : World)
    → w.posted ≡ ops
    → w.in_flight ≡ []
    → Inv w
    → (es : List Event) × (u : World) × (run es w ≡ ok u)
      × (u.posted ≡ [])
      × (u.in_flight ≡ [])
      × (handlers_of u ≡ handlers_of w)
      × Inv u
unfolding run
drain_posted [] w e f v = ([], w, refl, e, f, refl, v)
drain_posted (op ∷ ops) w e f v =
    let (u, ran, posted, flight, same) = run_first op ops w e v in
    let (es, t, ran', p, q, same', v') =
      drain_posted ops u posted (flight ∙ f) (subst IsSafe ran (run_one-IsSafe w v)) in
    (run_one ∷ es, t, rw ran ran', p, q, same' ∙ same, v')

drain_all :
    (fs : List ℕ) (w : World)
    → w.in_flight ≡ fs
    → Inv w
    → (es : List Event) × (u : World) × (run es w ≡ ok u)
      × (u.posted ≡ [])
      × (u.in_flight ≡ [])
      × (handlers_of u ≡ handlers_of w)
      × Inv u
unfolding run
drain_all [] w e v = drain_posted w.posted w refl e v
drain_all (op ∷ fs) w e v =
    let ran = finish_first op fs w e in
    let (es, t, ran', p, q, same, v') =
      drain_all fs (record w { in_flight = fs; posted = w.posted ++ op ∷ [] }) refl
        (subst IsSafe ran (finished-IsSafe op true w v)) in
    (finished op true ∷ es, t, rw ran ran', p, q, same, v')

-- From whatever state a run comes to whose calls are each by a client of its own, events follow
-- that start no call: gRPC finishes the calls in flight with an ok status and the context runs its
-- queue. Then nothing is left, and each handler was called exactly as often as the status was set
-- with it.
pub run-IsDrained :
    (es : List Event) (w : World)
    → Separate [] es
    → run es new_world ≡ ok w
    → (more : List Event) × (u : World) × (run (es ++ more) new_world ≡ ok u)
      × (handlers_of u ≡ handlers_of w)
      × IsDrained u
run-IsDrained es w s e =
    let (more, u, ran, p, q, same, v) =
      drain_all w.in_flight w refl (subst IsSafe e (run-IsSafe es s)) in
    (
      more,
      u,
      run-append es more new_world ∙ ap (λ (m : Outcome World). m >>= run more) e ∙ ran,
      same,
      record { in_flight = q; posted = p; called = λ h. handlers_called u h v q p },
    )
