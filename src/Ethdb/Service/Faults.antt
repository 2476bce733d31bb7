-- ===== src/Ethdb/Service/Faults.antt =====
-- One exchange with the service that fails or does not come to its end, among those that a
-- coroutine would have with it.
pub mod Cursors
pub mod Seeks
pub mod Stops
use silkoroutine.Common.{
  List, [], ◌∷◌, ◌++◌, ◌≡◌, refl, sym, ap, subst, ◌∙◌, append_assoc, ◌⊎◌, inl, inr,
}
use silkoroutine.Remote.{Pair}
use silkoroutine.Kv.Reactor.{GrpcCall}
use silkoroutine.Kv.Exec.{Event}
use silkoroutine.Kv.Awaitables.{Request}
use silkoroutine.Kv.Exchange.{calls_of, first_call, unwritten, unread, write_error, read_error}
use silkoroutine.Ethdb.Session.{
  Session, Coroutine, Result, value, thrown, suspended, continue, await,
}
use silkoroutine.Ethdb.Session.Answered.{await-unread, await-unwritten, await-unfinished}
use silkoroutine.Kv.Unfinished.{Wait, heard, calls_heard}
use silkoroutine.Ethdb.Service.{Exchanges}
use silkoroutine.Ethdb.Service.Exchanges.{script, script-append, calls_in, calls_in-append, Ran}

-- The message of a request is not written, or its answer, which would have been a pair, is not
-- read, or no more is heard of it.
pub data Fault : Type 0 where
  not_written : Fault
  not_read : Pair → Fault
  unfinished : Wait → Fault

abbrev pub failing : Fault → Request → List Event
failing not_written r = unwritten r
failing (not_read p) r = unread r p
failing (unfinished k) r = heard k r

abbrev pub result_of : {A : Type 0} → Fault → Request → Result A
result_of not_written r = thrown (write_error r)
result_of (not_read p) r = thrown (read_error r)
result_of (unfinished k) r = suspended

abbrev pub calls_made : Fault → Request → List GrpcCall
calls_made not_written r = first_call r ∷ []
calls_made (not_read p) r = calls_of r
calls_made (unfinished k) r = calls_heard k r

-- After the exchanges `es` the coroutine ends by the exception of the request `r`, or waits for
-- ever, and makes no calls of gRPC but for those of the exchanges and of the request.
abbrev pub Fails :
    {A : Type 0} → Coroutine A → Fault → Request → Exchanges → List (List Event) → Session → Type 0
Fails m k r es rest s =
    (t : Session) × (m s ≡ (result_of k r, t))
    × (t.world.reactor.calls ≡ s.world.reactor.calls ++ (calls_in es ++ calls_made k r))
    × (t.events ≡ rest)

-- A coroutine that would have the exchanges `xs` fails at whichever of them fails.
abbrev pub Breaks : {A : Type 0} → Coroutine A → Exchanges → Session → Type 0
Breaks m xs s =
    (es : Exchanges) (r : Request) (p : Pair) (fs : Exchanges) (k : Fault)
    (rest : List (List Event))
    → xs ≡ es ++ (r, p) ∷ fs
    → s.events ≡ script es ++ failing k r ∷ rest
    → Fails m k r es rest s

-- Where an element of two lists stands.
abbrev Stands : {A : Type 0} → List A → List A → List A → A → List A → Type 0
Stands {A} xs ys es x fs =
    ((gs : List A) × (xs ≡ es ++ x ∷ gs)) ⊎ ((ds : List A) × (es ≡ xs ++ ds) × (ys ≡ ds ++ x ∷ fs))

append-Stands :
    {A : Type 0}
    → (xs ys es : List A) (x : A) (fs : List A) → xs ++ ys ≡ es ++ x ∷ fs
    → Stands xs ys es x fs
append-Stands [] ys es x fs h = inr (es, refl, h)
append-Stands (y ∷ xs) ys [] x fs h = inl (xs, cc)
append-Stands (y ∷ xs) ys (z ∷ es) x fs h = elim (append-Stands xs ys es x fs cc) [
  | inl (gs, e) ↦ inl (gs, cc)
  | inr (ds, e, e') ↦ inr (ds, cc, e')
]

pub nothing-Breaks : {A : Type 0} → (m : Coroutine A) (s : Session) → Breaks m [] s
nothing-Breaks m s [] r p fs k rest h ev = cc
nothing-Breaks m s (e ∷ es) r p fs k rest h ev = cc

await-Fails :
    (r : Request) (k : Fault) (rest : List (List Event)) (s : Session)
    → s.world.posted ≡ []
    → s.events ≡ failing k r ∷ rest
    → Fails (await r) k r [] rest s
await-Fails r not_written rest s quiet ev =
    let (t, run, broke) = await-unwritten r rest s quiet ev in (t, run, broke.calls, broke.events)
await-Fails r (not_read p) rest s quiet ev =
    let (t, run, broke) = await-unread r p rest s quiet ev in (t, run, broke.calls, broke.events)
await-Fails r (unfinished k) rest s quiet ev =
    let (t, run, broke) = await-unfinished k r rest s ev in (t, run, broke.calls, broke.events)

pub await-Breaks :
    (r : Request) (p : Pair) (s : Session) → s.world.posted ≡ [] → Breaks (await r) ((r, p) ∷ []) s
await-Breaks r p s quiet [] r' p' fs k rest h ev =
    let same : r ≡ r' = cc in
    subst (λ q. Fails (await r) k q [] rest s) same
      (await-Fails r k rest s quiet (ev ∙ ap (λ q. failing k q ∷ rest) (sym same)))
await-Breaks r p s quiet (e ∷ []) r' p' fs k rest h ev = cc
await-Breaks r p s quiet (e ∷ e' ∷ es) r' p' fs k rest h ev = cc

pub continue-result_of :
    {A B : Type 0}
    → (f : A → Coroutine B) (k : Fault) (r : Request) (t : Session)
    → continue f (result_of k r, t) ≡ (result_of k r, t)
continue-result_of f not_written r t = refl
continue-result_of f (not_read p) r t = refl
continue-result_of f (unfinished k) r t = refl

-- An exception goes through what comes after, which is not run, as it is not where nothing resumes
-- the coroutine.
pub continue-Breaks :
    {A B : Type 0}
    → (m : Coroutine A) (f : A → Coroutine B) (xs : Exchanges) (s : Session) → Breaks m xs s
    → Breaks (λ u. continue f (m u)) xs s
continue-Breaks m f xs s b es r p fs k rest h ev =
    let (t, run, calls, events) = b es r p fs k rest h ev in
    (t, rw run (continue-result_of f k r t), calls, events)

-- One part of a coroutine after the other: where the first goes well with the exchanges `xs`, the
-- second would have the exchanges `ys`.
pub bind-Breaks :
    {A B : Type 0}
    → (m : Coroutine A) (f : A → Coroutine B) (xs ys : Exchanges) (s : Session) → Breaks m xs s
    → ((rest : List (List Event))
        → s.events ≡ script xs ++ rest
        → (a : A) × (t : Session) × (m s ≡ (value a, t)) × Ran xs rest s t × Breaks (f a) ys t)
    → Breaks (λ u. continue f (m u)) (xs ++ ys) s
bind-Breaks m f xs ys s b next es r p fs k rest h ev = elim (append-Stands xs ys es (r, p) fs h) [
  | inl (gs, e) ↦ continue-Breaks m f xs s b es r p gs k rest e ev
  | inr (ds, e, e') ↦
      let (a, t, run, ran, b') =
        next (script ds ++ failing k r ∷ rest) (ev ∙ simp (e, script-append, append_assoc) refl) in
      let (u, run', calls, events) = b' ds r p fs k rest e' ran.events in
      (u, rw run run', simp (calls, ran.calls, e, calls_in-append, append_assoc) refl, events)
]
