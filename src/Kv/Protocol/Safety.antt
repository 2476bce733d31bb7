-- ===== src/Kv/Protocol/Safety.antt =====
-- What can come next, and that it ends well or with an exception of the code's own.
use silkoroutine.Common.{ℕ, Bool, true, false, none, ◌≡◌}
use silkoroutine.Remote.{Pair}
use silkoroutine.Kv.World.{World, Outcome, Error, bad_function_call}
use silkoroutine.Kv.Exec.{write_done, done, run_one, deliver}
use silkoroutine.Kv.Awaitables.{Request, initiate}
use silkoroutine.Kv.Exchange.{Returns, Raises, read_error, write_error}
use silkoroutine.Kv.Protocol.{Phase, idle, writing, reading, queued, report}

-- How an event ends that reports success or failure.
abbrev pub Ends : Error → Bool → Outcome World → Type 0
Ends e true o = Returns (λ _. Unit) o
Ends e false o = Raises e (λ _. Unit) o

-- The end of the stream, which comes only when nothing is outstanding, where no close was started.
abbrev EndsEarly : World → Type 0
EndsEarly w =
    (b : Bool)
    → w.reactor.close_completed ≡ none
    → Raises bad_function_call (λ _. Unit) (deliver (done b) w)

-- What each event that can come next does in a phase.
abbrev pub IsSafe : Phase × World → Type 0
IsSafe (idle, w) = ((r : Request) (h : ℕ) → Returns (λ _. Unit) (initiate r h w)) × EndsEarly w
IsSafe (writing r h, w) = (b : Bool) → Ends (write_error r) b (deliver (write_done b) w)
IsSafe (reading r h, w) = (b : Bool) (p : Pair) → Returns (λ _. Unit) (deliver (report r b p) w)
IsSafe (queued r h b p, w) = Ends (read_error r) b (deliver run_one w) × EndsEarly w
