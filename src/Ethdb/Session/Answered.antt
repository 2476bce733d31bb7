-- ===== src/Ethdb/Session/Answered.antt =====
-- What a coroutine returns and leaves, when gRPC answers each of its requests, and when it does
-- not.
use silkoroutine.Common.{ℕ, List, [], ◌∷◌, ◌++◌, ◌≡◌, refl, ap, ◌∙◌, length, append_assoc, ==_iff}
use silkoroutine.Remote.{Pair, empty_pair}
use silkoroutine.Kv.Reactor.{GrpcCall}
use silkoroutine.Kv.World.{World, Outcome, ok, raised, fault, Error}
use silkoroutine.Kv.Exec.{Event}
use silkoroutine.Kv.Awaitables.{Request}
use silkoroutine.Kv.Exchange.{
  answered, answer_of, calls_of, Answered, Returns, exchange, unread, unwritten, Raises, Abandoned,
  first_call, read_error, write_error, exchange_fails,
}
use silkoroutine.Kv.Unfinished.{Wait, heard, calls_heard, Pending, initiate-Pending}
use silkoroutine.Ethdb.Session.{
  Session, value, thrown, suspended, await, resume, drop, upcoming, later,
}

-- From `s` to `t` the calls `cs` were made of gRPC, all of them answered, and the events `rest` are
-- still to come.
pub record Spoke (cs : List GrpcCall) (rest : List (List Event)) (s t : Session) : Type 0 where
  pub calls : t.world.reactor.calls ≡ s.world.reactor.calls ++ cs
  pub posted : t.world.posted ≡ []
  pub events : t.events ≡ rest
  pub cursors : t.cursors ≡ s.cursors

pub Spoke-trans :
    {cs ds : List GrpcCall} {mid rest : List (List Event)} {s t u : Session}
    → Spoke cs mid s t
    → Spoke ds rest t u
    → Spoke (cs ++ ds) rest s u
Spoke-trans a b = record {
  calls = simp (b.calls, a.calls, append_assoc);
  posted = b.posted;
  events = b.events;
  cursors = b.cursors ∙ a.cursors;
}

drop-append : {A : Type 0} (xs ys : List A) → drop (length xs) (xs ++ ys) ≡ ys
drop-append [] ys = refl
drop-append (x ∷ xs) ys = drop-append xs ys

resume-Answered :
    (r : Request) (h : ℕ) (p : Pair) (rest : List (List Event)) (s : Session) (m : Outcome World)
    → Returns (Answered r h p s.world) m
    → (t : Session) × (resume h (record s { events = rest }) m ≡ (value (answer_of r p), t))
      × Spoke (calls_of r) rest s t
      × (t.heap ≡ s.heap)
resume-Answered r h p rest s (ok w) a = (
  record s { events = rest; world = w },
  rw (a.upcalls, drop-append, (==_iff h h).1 refl),
  record { calls = a.calls; posted = a.posted; events = refl; cursors = refl },
  refl,
)
resume-Answered r h p rest s (raised e w) a = absurd a
resume-Answered r h p rest s fault a = absurd a

-- A request that is answered gives the coroutine the answer.
pub await-answered :
    (r : Request) (p : Pair) (rest : List (List Event)) (s : Session)
    → s.world.posted ≡ []
    → s.events ≡ answered r p ∷ rest
    → (t : Session) × (await r s ≡ (value (answer_of r p), t))
      × Spoke (calls_of r) rest s t
      × (t.heap ≡ s.heap)
unfolding await
await-answered r p rest s quiet e =
    rw (ap upcoming e, ap later e)
      (resume-Answered r (length s.world.operations) p rest s _
        (exchange r (length s.world.operations) p s.world quiet))

-- From `s` to `t` the calls `cs` were made of gRPC, the last request failed, and the events `rest`
-- are still to come.
pub record Broke (cs : List GrpcCall) (rest : List (List Event)) (s t : Session) : Type 0 where
  pub calls : t.world.reactor.calls ≡ s.world.reactor.calls ++ cs
  pub upcalls : t.world.upcalls ≡ s.world.upcalls
  pub events : t.events ≡ rest
  pub heap : t.heap ≡ s.heap
  pub cursors : t.cursors ≡ s.cursors

resume-Abandoned :
    (x : Error) (r : Request) (h : ℕ) (cs : List GrpcCall) (rest : List (List Event)) (s : Session)
    (m : Outcome World)
    → Raises x (Abandoned r h cs s.world) m
    → (t : Session) × (resume h (record s { events = rest }) m ≡ (thrown x, t)) × Broke cs rest s t
resume-Abandoned x r h cs rest s (ok w) a = absurd a
resume-Abandoned x r h cs rest s (raised e w) a = (
  record s { events = rest; world = w },
  rw a.0,
  record { calls = a.1.calls; upcalls = a.1.upcalls; events = refl; heap = refl; cursors = refl },
)
resume-Abandoned x r h cs rest s fault a = absurd a

-- A request whose answer is not read throws, and changes no cursor.
pub await-unread :
    (r : Request) (p : Pair) (rest : List (List Event)) (s : Session)
    → s.world.posted ≡ []
    → s.events ≡ unread r p ∷ rest
    → (t : Session) × (await r s ≡ (thrown (read_error r), t)) × Broke (calls_of r) rest s t
unfolding await
await-unread r p rest s quiet e =
    rw (ap upcoming e, ap later e)
      (resume-Abandoned (read_error r) r _ (calls_of r) rest s _
        (exchange_fails r (length s.world.operations) p s.world quiet).1)

-- So does one whose message is not written.
pub await-unwritten :
    (r : Request) (rest : List (List Event)) (s : Session)
    → s.world.posted ≡ []
    → s.events ≡ unwritten r ∷ rest
    → (t : Session) × (await r s ≡ (thrown (write_error r), t)) × Broke (first_call r ∷ []) rest s t
unfolding await
await-unwritten r rest s quiet e =
    rw (ap upcoming e, ap later e)
      (resume-Abandoned (write_error r) r _ (first_call r ∷ []) rest s _
        (exchange_fails r (length s.world.operations) empty_pair s.world quiet).0)

drop_all : {A : Type 0} (xs : List A) → drop (length xs) xs ≡ []
drop_all [] = refl
drop_all (x ∷ xs) = drop_all xs

resume-Pending :
    (h : ℕ) (cs : List GrpcCall) (rest : List (List Event)) (s : Session) (m : Outcome World)
    → Returns (Pending cs s.world) m
    → (t : Session) × (resume h (record s { events = rest }) m ≡ (suspended, t)) × Broke cs rest s t
resume-Pending h cs rest s (ok w) a = (
  record s { events = rest; world = w },
  rw (a.upcalls, drop_all),
  record { calls = a.calls; upcalls = a.upcalls; events = refl; heap = refl; cursors = refl },
)
resume-Pending h cs rest s (raised e w) a = absurd a
resume-Pending h cs rest s fault a = absurd a

-- One of which no more is heard is not resumed.
pub await-unfinished :
    (k : Wait) (r : Request) (rest : List (List Event)) (s : Session)
    → s.events ≡ heard k r ∷ rest
    → (t : Session) × (await r s ≡ (suspended, t)) × Broke (calls_heard k r) rest s t
unfolding await
await-unfinished k r rest s e =
    rw (ap upcoming e, ap later e)
      (resume-Pending (length s.world.operations) (calls_heard k r) rest s _
        (initiate-Pending k r (length s.world.operations) s.world))
