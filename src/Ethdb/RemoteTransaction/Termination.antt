-- ===== src/Ethdb/RemoteTransaction/Termination.antt =====
-- `close` returns where the server answers: it closes each open cursor, and then the stream.
use silkoroutine.Common.{
  ℕ, zero, suc, Bytes, List, [], ◌∷◌, ◌++◌, Option, none, some, ◌≡◌, ◌≢◌, refl, sym, ap, ◌∙◌,
  length, get_elem?, set, arith, ◌<◌, inl, inr, ◌==◌, if◌then◌else◌, Bool-cases, ==_iff,
  append_assoc, append-nil, length-set,
}
use silkoroutine.Remote.{Pair}
use silkoroutine.Kv.Reactor.{GrpcCall}
use silkoroutine.Kv.Exec.{Event}
use silkoroutine.Kv.Awaitables.{Request, async_close, async_close_cursor}
use silkoroutine.Kv.Exchange.{answered, calls_of}
use silkoroutine.Ethdb.TableMap.{TableMap}
use silkoroutine.Ethdb.Session.{Session, value}
use silkoroutine.Ethdb.Session.Answered.{Spoke, Spoke-trans, await-answered}
use silkoroutine.Ethdb.RemoteCursor.Answered.{close_cursor-answered, close_cursor_again}
use silkoroutine.Ethdb.RemoteTransaction.{close, close_each}
use silkoroutine.Ethdb.RemoteTransaction.Invariant.{IsValid, Distinct, Below, Apart}

-- The id that a cursor holds; 0 also for an address that no cursor has.
abbrev pub id_at : Option ℕ → ℕ
id_at none = 0
id_at (some n) = n

-- A CLOSE for each open cursor, in the order of the tables.
unfoldable pub closings : List ℕ → TableMap ℕ → List Request
closings heap [] = []
closings heap ((table, a) ∷ m) =
    let n = id_at (get_elem? heap a) in
    if n == 0 then closings heap m else async_close_cursor n ∷ closings heap m

-- The calls of several requests, one after the other.
abbrev pub all_calls : List Request → List GrpcCall
all_calls [] = []
all_calls (r ∷ rs) = calls_of r ++ all_calls rs

abbrev pub all_answered : (ℕ → Pair) → List Request → List (List Event)
all_answered ps [] = []
all_answered ps (r ∷ rs) = answered r (ps 0) ∷ all_answered (λ i. ps (suc i)) rs

pub get_elem?-set_apart :
    (xs : List ℕ) (i j v : ℕ) → j ≢ i → get_elem? (set xs i v) j ≡ get_elem? xs j
get_elem?-set_apart [] i j v h = refl
get_elem?-set_apart (x ∷ xs) zero zero v h = absurd (h refl)
get_elem?-set_apart (x ∷ xs) zero (suc j) v h = refl
get_elem?-set_apart (x ∷ xs) (suc i) zero v h = refl
get_elem?-set_apart (x ∷ xs) (suc i) (suc j) v h = get_elem?-set_apart xs i j v (λ e. h (ap suc e))

closings-set :
    (heap : List ℕ) (a : ℕ) (m : TableMap ℕ)
    → Apart a m
    → closings (set heap a 0) m ≡ closings heap m
unfolding closings
closings-set heap a [] h = refl
closings-set heap a ((table, b) ∷ m) h =
    rw (get_elem?-set_apart heap a b 0 h.0, closings-set heap a m h.1)

pub get_elem?-lt : (xs : List ℕ) (i : ℕ) → i < length xs → (n : ℕ) × (get_elem? xs i ≡ some n)
get_elem?-lt [] i h = absurd (omega arith)
get_elem?-lt (x ∷ xs) zero h = (x, refl)
get_elem?-lt (x ∷ xs) (suc i) h = get_elem?-lt xs i (omega arith)

pub Spoke-refl : (s : Session) → s.world.posted ≡ [] → Spoke [] s.events s s
Spoke-refl s q = record { calls = sym (append-nil _); posted = q; events = refl; cursors = refl }

closings_closed :
    (heap : List ℕ) (table : Bytes) (a : ℕ) (m : TableMap ℕ)
    → get_elem? heap a ≡ some 0
    → closings heap ((table, a) ∷ m) ≡ closings heap m
unfolding closings
closings_closed heap table a m e = rw e

pub closings_open :
    (heap : List ℕ) (table : Bytes) (a n : ℕ) (m : TableMap ℕ)
    → get_elem? heap a ≡ some n
    → n ≢ 0
    → closings heap ((table, a) ∷ m) ≡ async_close_cursor n ∷ closings heap m
unfolding closings
closings_open heap table a n m e ne = rw e (ground arith)

pub all_calls-append : (rs qs : List Request) → all_calls (rs ++ qs) ≡ all_calls rs ++ all_calls qs
all_calls-append [] qs = refl
all_calls-append (r ∷ rs) qs = simp (all_calls-append rs qs, append_assoc)

-- The loop from a state on, with the answers that it needs.
abbrev Closes : TableMap ℕ → List (List Event) → Session → Type 0
Closes m rest s =
    (t : Session) × (close_each m s ≡ (value tt, t))
    × Spoke (all_calls (closings s.heap m)) rest s t

skip_closed :
    (table : Bytes) (a : ℕ) (m : TableMap ℕ) (rest : List (List Event)) (s : Session)
    → get_elem? s.heap a ≡ some 0
    → Closes m rest s
    → Closes ((table, a) ∷ m) rest s
unfolding close_each
skip_closed table a m rest s held (t, run, spoke) =
    (t, rw (close_cursor_again a s held) run, rw (closings_closed s.heap table a m held) spoke)

close_open :
    (table : Bytes) (a n : ℕ) (p : Pair) (ps : ℕ → Pair) (m : TableMap ℕ) (rest : List (List Event))
    (s : Session)
    → s.world.posted ≡ []
    → get_elem? s.heap a ≡ some n
    → n ≢ 0
    → Apart a m
    → s.events ≡ answered (async_close_cursor n) p ∷ (all_answered ps (closings s.heap m) ++ rest)
    → ((u : Session)
        → u.world.posted ≡ []
        → u.heap ≡ set s.heap a 0
        → u.events ≡ all_answered ps (closings u.heap m) ++ rest
        → Closes m rest u)
    → Closes ((table, a) ∷ m) rest s
unfolding close_each
close_open table a n p ps m rest s quiet held ne apart ev go =
    let (u, run, spoke, heap) = close_cursor-answered a p _ s quiet n held ne ev in
    let same : closings u.heap m ≡ closings s.heap m = rw heap (closings-set s.heap a m apart) in
    let (t, run', spoke') = go u spoke.posted heap (rw same spoke.events) in
    (
      t,
      rw run run',
      rw (closings_open s.heap table a n m held ne) (Spoke-trans spoke (rw same at spoke')),
    )

close_each-answered :
    (ps : ℕ → Pair) (m : TableMap ℕ) (rest : List (List Event)) (s : Session)
    → s.world.posted ≡ []
    → Below (length s.heap) m
    → Distinct m
    → s.events ≡ all_answered ps (closings s.heap m) ++ rest
    → Closes m rest s
unfolding close_each closings
close_each-answered ps [] rest s quiet b d ev =
    (s, refl, record { calls = sym (append-nil _); posted = quiet; events = ev; cursors = refl })
close_each-answered ps ((table, a) ∷ m) rest s quiet b d ev =
    let (n, held) = get_elem?-lt s.heap a b.0 in
    elim (Bool-cases (n == 0)) [
      | inl z ↦
          let zero_held : get_elem? s.heap a ≡ some 0 = held ∙ ap some ((==_iff n 0).0 z) in
          skip_closed table a m rest s zero_held (
            close_each-answered ps m rest s quiet b.1 d.1 (
              ev
              ∙ ap (λ rs. all_answered ps rs ++ rest) (closings_closed s.heap table a m zero_held)))
      | inr z ↦
          let ne : n ≢ 0 = λ e. cc (z, (==_iff n 0).1 e) in
          close_open table a n (ps 0) (λ i. ps (suc i)) m rest s quiet held ne d.0
            (ev ∙ ap (λ rs. all_answered ps rs ++ rest) (closings_open s.heap table a n m held ne))
            λ u q h e.
              close_each-answered (λ i. ps (suc i)) m rest u q (rw (h, length-set s.heap a 0) b.1)
                d.1 e
    ]

-- In a valid state with no handler in the queue, and with a server that answers each request,
-- whatever its answers are, `close` returns. It sends a CLOSE for each open cursor in the order of
-- the tables and then ends the writes, and it waits for one answer to each.
pub close-answered :
    (ps : ℕ → Pair) (p : Pair) (rest : List (List Event)) (s : Session)
    → IsValid s
    → s.world.posted ≡ []
    → s.events ≡ all_answered ps (closings s.heap s.cursors) ++ (answered async_close p ∷ rest)
    → (t : Session) × (close s ≡ (value tt, t))
      × (t.world.reactor.calls
          ≡ s.world.reactor.calls ++ all_calls (closings s.heap s.cursors ++ async_close ∷ []))
      × (t.cursors ≡ [])
      × (t.events ≡ rest)
unfolding close
close-answered ps p rest s v quiet ev =
    let todo = closings s.heap s.cursors in
    let (t, run, spoke) =
      close_each-answered ps s.cursors (answered async_close p ∷ rest) s quiet v.bounded v.distinct
        ev in
    let (u, run', spoke', _) =
      await-answered async_close p rest (record t { cursors = [] }) spoke.posted spoke.events in
    (
      u,
      rw run (rw run' refl),
      spoke'.calls ∙ simp (spoke.calls, all_calls-append todo, append_assoc),
      spoke'.cursors,
      spoke'.events,
    )
