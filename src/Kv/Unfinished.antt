-- ===== src/Kv/Unfinished.antt =====
-- One operation of which no more is heard.
use silkoroutine.Common.{ℕ, true, List, [], ◌∷◌, ◌++◌, ◌≡◌, refl, append_assoc}
use silkoroutine.Remote.{Pair}
use silkoroutine.Kv.Reactor.{GrpcCall}
use silkoroutine.Kv.World.{World}
use silkoroutine.Kv.Exec.{Event, write_done, read_done, done, drive, ◌>>=◌}
use silkoroutine.Kv.Awaitables.{Request, async_close, initiate}
use silkoroutine.Kv.Exchange.{calls_of, first_call, Returns}

-- Nothing is reported; the message is written, and no answer comes; the answer comes, and the
-- context does not run the completion.
pub data Wait : Type 0 where
  unreported unanswered : Wait
  not_run : Pair → Wait

-- What is heard of a request. The end of the writes has no message of its own.
abbrev pub heard : Wait → Request → List Event
heard unreported r = []
heard unanswered async_close = []
heard unanswered _ = write_done true ∷ []
heard (not_run p) async_close = done true ∷ []
heard (not_run p) _ = write_done true ∷ read_done true p ∷ []

abbrev pub calls_heard : Wait → Request → List GrpcCall
calls_heard unreported r = first_call r ∷ []
calls_heard _ r = calls_of r

pub record Pending (cs : List GrpcCall) (w w' : World) : Type 0 where
  pub calls : w'.reactor.calls ≡ w.reactor.calls ++ cs
  pub upcalls : w'.upcalls ≡ w.upcalls

-- The handler of a request of which no more is heard is not called, and nothing is thrown.
pub initiate-Pending :
    (k : Wait) (r : Request) (handler : ℕ) (w : World)
    → Returns (Pending (calls_heard k r) w) (initiate r handler w >>= drive (heard k r))
unfolding initiate drive
initiate-Pending unreported async_close handler w = record { calls = refl; upcalls = refl }
initiate-Pending unreported _ handler w = record { calls = refl; upcalls = refl }
initiate-Pending unanswered async_close handler w = record { calls = refl; upcalls = refl }
initiate-Pending unanswered _ handler w = record { calls = simp append_assoc; upcalls = refl }
initiate-Pending (not_run p) async_close handler w = record { calls = refl; upcalls = refl }
initiate-Pending (not_run p) _ handler w = record { calls = simp append_assoc; upcalls = refl }
