-- ===== src/Ethdb/Session.antt =====
-- The state that the coroutines of one transaction share, and what `co_await` does to it.
pub mod Answered
pub mod Any
use silkoroutine.Common.{
  ℕ, zero, suc, List, [], ◌∷◌, Option, none, some, length, get_elem?, set, ◌==◌, if◌then◌else◌,
}
use silkoroutine.Remote.{Pair}
use silkoroutine.Kv.World.{World, Payload, id, pair, Error, Outcome, ok, raised, fault, new_world}
use silkoroutine.Kv.Exec
use silkoroutine.Kv.Exec.{Event, drive}
use silkoroutine.Kv.Awaitables.{Request, initiate}
use silkoroutine.Ethdb.TableMap.{TableMap}

-- `thrown` is an exception that a callback let out, on gRPC's thread or out of `io_context::run`:
-- nothing catches it. `suspended` is a coroutine that nothing resumes.
pub data Result {ℓ} (A : Type ℓ) : Type ℓ where
  value : A → Result A
  thrown : Error → Result A
  undefined suspended : Result A

-- `events` holds what gRPC and the `io_context` do during each `co_await` to come. `heap` has the
-- `cursor_id_` of each `RemoteCursor` at its address; `cursors` is the transaction's member
-- `cursors_`, of shared pointers into it.
pub record Session : Type 0 where
  pub world : World
  pub events : List (List Event)
  pub heap : List ℕ
  pub cursors : TableMap ℕ

-- `RemoteDatabase::begin`, which makes a `RemoteTransaction` with a reactor of its own.
abbrev pub begin : List (List Event) → Session
begin events = record { world = new_world; events = events; heap = []; cursors = [] }

-- A coroutine over the state `S`.
abbrev pub Routine {ℓ} : Type 0 → Type ℓ → Type ℓ
Routine S A = S → Result A × S

abbrev pub Coroutine {ℓ} : Type ℓ → Type ℓ
Coroutine A = Routine Session A

abbrev pub pure {ℓ} : {S : Type 0} {A : Type ℓ} → A → Routine S A
pure a s = (value a, s)

abbrev pub continue {ℓ κ} :
    {S : Type 0} {A : Type ℓ} {B : Type κ} → (A → Routine S B) → Result A × S → Result B × S
continue f (value a, s) = f a s
continue f (thrown e, s) = (thrown e, s)
continue f (undefined, s) = (undefined, s)
continue f (suspended, s) = (suspended, s)

infixl 5 ◌>>=◌ ◌>>◌
abbrev pub ◌>>=◌ {ℓ κ} :
    {S : Type 0} {A : Type ℓ} {B : Type κ} → Routine S A → (A → Routine S B) → Routine S B
◌>>=◌ m f s = continue f (m s)

abbrev pub ◌>>◌ {ℓ} : {S : Type 0} {B : Type ℓ} → Routine S (Unit {0}) → Routine S B → Routine S B
m >> k = m >>= λ _. k

abbrev pub drop : {A : Type 0} → ℕ → List A → List A
drop zero xs = xs
drop (suc n) [] = []
drop (suc n) (x ∷ xs) = drop n xs

-- What the handler was called with, if it was.
abbrev pub given_to : ℕ → List (ℕ × Payload) → Result Payload
given_to h [] = suspended
given_to h ((j, p) ∷ us) = if j == h then value p else given_to h us

abbrev pub resume : ℕ → Session → Outcome World → Result Payload × Session
resume h s (ok w) = (given_to h (drop (length s.world.upcalls) w.upcalls), record s { world = w })
resume h s (raised e w) = (thrown e, record s { world = w })
resume h s fault = (undefined, s)

-- The events of the next `co_await`, taken off the list.
abbrev pub upcoming : {A : Type 0} → List (List A) → List A
upcoming [] = []
upcoming (es ∷ rest) = es

abbrev pub later : {A : Type 0} → List (List A) → List (List A)
later [] = []
later (es ∷ rest) = rest

-- `co_await` on an operation: the coroutine is the handler, under a number that no handler had.
unfoldable pub await : Request → Coroutine Payload
await r s =
    let h = length s.world.operations in
    resume h (record s { events = later s.events })
      (Exec.◌>>=◌ (initiate r h s.world) (drive (upcoming s.events)))

-- A payload of another type than the handler's cannot arise in the source.
abbrev as_id : Payload → Coroutine ℕ
as_id (id n) s = (value n, s)
as_id _ s = (undefined, s)

abbrev as_pair : Payload → Coroutine Pair
as_pair (pair p) s = (value p, s)
as_pair _ s = (undefined, s)

abbrev pub await_id : Request → Coroutine ℕ
await_id r = do p ← await r; as_id p

abbrev pub await_pair : Request → Coroutine Pair
await_pair r = do p ← await r; as_pair p

-- The member `cursor_id_` of the cursor at an address.
abbrev pub load : Option ℕ → Coroutine ℕ
load none s = (undefined, s)
load (some n) s = (value n, s)

abbrev pub get_cursor_id : ℕ → Coroutine ℕ
get_cursor_id self s = load (get_elem? s.heap self) s

abbrev pub set_cursor_id : ℕ → ℕ → Coroutine (Unit {0})
set_cursor_id self n s = (value tt, record s { heap = set s.heap self n })
