-- ===== src/Kv/Protocol.antt =====
-- The bindings under every order of the events that a request waits for, from gRPC and from the
-- `io_context`, for a client that starts a request when the one before it has ended, as a coroutine
-- that awaits each does. A step is an event that ends well. One that throws leads to no state:
-- a failed write or read, and the end of a stream that the client has not closed, are in `Safety`.
pub mod Invariant
pub mod Handlers
pub mod Safety
use silkoroutine.Common.{ℕ, Bool, true, List, [], ◌∷◌, ◌≡◌, ◌≢◌, map}
use silkoroutine.Remote.{Pair}
use silkoroutine.Kv.World.{World, Operation, Payload, ok}
use silkoroutine.Kv.Exec.{Event, write_done, read_done, done, run_one, deliver, drive, ◌>>=◌}
use silkoroutine.Kv.Awaitables.{Request, async_close, initiate}

-- What the client waits for: gRPC's report of a write, of a read or of the end of the stream, or
-- the handler that was posted when that report came with the flag `b`.
pub data Phase : Type 0 where
  idle : Phase
  writing reading : Request → ℕ → Phase
  queued : Request → ℕ → Bool → Pair → Phase

-- The phase behind the start of a request: the last one announces the end of the writes, and waits
-- for the end of the stream as the others do for their answer.
abbrev pub started : Request → ℕ → Phase
started async_close h = reading async_close h
started r h = writing r h

-- The report that an answer comes with.
abbrev pub report : Request → Bool → Pair → Event
report async_close b p = done b
report r b p = read_done b p

pub data Step : Phase × World → Phase × World → Type 0 where
  start :
      {w w' : World} (r : Request) (h : ℕ)
      → initiate r h w ≡ ok w'
      → Step (idle, w) (started r h, w')
  wrote :
      {w w' : World} {r : Request} {h : ℕ}
      → deliver (write_done true) w ≡ ok w'
      → Step (writing r h, w) (reading r h, w')
  answer :
      {w w' : World} {r : Request} {h : ℕ} (b : Bool) (p : Pair)
      → deliver (report r b p) w ≡ ok w'
      → Step (reading r h, w) (queued r h b p, w')
  ran :
      {w w' : World} {r : Request} {h : ℕ} {b : Bool} {p : Pair}
      → deliver run_one w ≡ ok w'
      → Step (queued r h b p, w) (idle, w')

pub data Reach (s : Phase × World) : Phase × World → Type 0 where
  here : Reach s s
  next : {t u : Phase × World} → Reach s t → Step t u → Reach s u

abbrev pub called : World → List ℕ
called w = map (λ (u : ℕ × Payload). u.0) w.upcalls

abbrev pub handlers : World → List ℕ
handlers w = map (λ (o : Operation). o.handler) w.operations

-- Nothing is queued, and every operation's handler was called, once and in the order of the starts.
pub record IsSettled (w : World) : Type 0 where
  pub posted : w.posted ≡ []
  pub called_all : handlers w ≡ called w

-- The events of a request up to its phase.
abbrev pub before_queued : Request → Bool → Pair → List Event
before_queued async_close b p = done b ∷ []
before_queued r b p = write_done true ∷ read_done b p ∷ []

abbrev pub before_reading : Request → List Event
before_reading async_close = []
before_reading r = write_done true ∷ []

-- A request that is under way was started in a settled state.
abbrev pub Inv : Phase × World → Type 0
Inv (idle, w) = IsSettled w
Inv (writing r h, w) = (v : World) × (r ≢ async_close) × IsSettled v × (initiate r h v ≡ ok w)
Inv (reading r h, w) =
    (v : World) × IsSettled v × ((initiate r h v >>= drive (before_reading r)) ≡ ok w)
Inv (queued r h b p, w) =
    (v : World) × IsSettled v × ((initiate r h v >>= drive (before_queued r b p)) ≡ ok w)
