-- ===== src/Tests/Bindings.antt =====
-- Runs of the bindings: a SEEK through the cursor 7, and two statuses for the sentry.
use silkoroutine.Common.{List, true, [], ◌∷◌, ◌++◌, ◌≡◌, refl, codes}
use silkoroutine.Remote.{Pair, StatusData}
use silkoroutine.Kv.World.{World, Outcome, ok, raised, fault, new_world}
use silkoroutine.Kv.Exec.{run_one, done, write_done, read_done, drive, ◌>>=◌}
use silkoroutine.Kv.Awaitables.{async_next, Request, async_seek, async_close, initiate}
use silkoroutine.Kv.Exchange.{Returns, Answered, answered, exchange}
use silkoroutine.Kv.Overlap.Second.{Lost}
use silkoroutine.Kv.Overlap.{overlap_loses_first}
use silkoroutine.Kv.Leaves.{Leaves}
use silkoroutine.Kv.Protocol.{idle, queued, Reach, start, wrote, answer, called, handlers}
use silkoroutine.Kv.Protocol
use silkoroutine.Kv.Protocol.Handlers.{called_once}
use silkoroutine.Kv.Protocol.Safety.{IsSafe}
use silkoroutine.Kv.Alone.{OwnEvent, own_start, own, alone}
use silkoroutine.Kv.Alone.Casts.{alone-IsTyped}
use silkoroutine.Kv.Alone.Runs.{IsTyped}
use silkoroutine.Sentry.Client
use silkoroutine.Sentry.Safety.{run-IsSafe}
use silkoroutine.Sentry.Safety
use silkoroutine.Sentry.Drain.{IsDrained, handlers_of, run-IsDrained}

abbrev seek_request : Request
seek_request = async_seek 7 (codes "ab")

abbrev some_pair : Pair
some_pair = record { k = codes "ab"; v = codes "cd"; cursorid = 7 }

exchange_example :
    Returns
      (Answered seek_request 0 some_pair new_world)
      (initiate seek_request 0 new_world >>= drive (answered seek_request some_pair))
exchange_example = exchange seek_request 0 some_pair new_world refl

abbrev world_of : Outcome World → World
world_of (ok w) = w
world_of (raised e w) = w
world_of fault = new_world

abbrev queued_world : World
queued_world =
    world_of (
      initiate seek_request 0 new_world >>= drive (write_done true ∷ read_done true some_pair ∷ []))

-- The answer was read, and its handler is on the queue.
queued_reached : Reach (idle, new_world) (queued seek_request 0 true some_pair, queued_world)
unfolding initiate drive
queued_reached =
    Protocol.next
      (Protocol.next (Protocol.next Protocol.here (start seek_request 0 refl)) (wrote refl))
      (answer true some_pair refl)

called_once_example : handlers queued_world ≡ called queued_world ++ 0 ∷ []
called_once_example = called_once (queued seek_request 0 true some_pair) queued_world queued_reached

abbrev no_forks : StatusData
no_forks = record {
  network_id = 1;
  total_difficulty = [];
  best_hash = [];
  genesis = [];
  forks = [];
}

-- Two calls, each by its client, the second of which is finished first.
abbrev two_statuses : List Client.Event
two_statuses =
    Client.start 0 no_forks 7
    ∷ Client.start 1 no_forks 8
    ∷ Client.finished 1 true
    ∷ Client.finished 0 true
    ∷ Client.run_one
    ∷ Client.run_one
    ∷ []

run-IsSafe_example : Safety.IsSafe (Client.run two_statuses Client.new_world)
run-IsSafe_example = run-IsSafe two_statuses (refl, (refl, tt))

abbrev next_request : Request
next_request = async_next 7

overlap_loses_first_example :
    Leaves
      (λ w. Lost 0 1 w.operations w.upcalls)
      (initiate seek_request 0 new_world
        >>= initiate next_request 1
        >>= drive (write_done true ∷ write_done true ∷ read_done true some_pair ∷ run_one ∷ []))
overlap_loses_first_example =
    overlap_loses_first seek_request next_request 0 1
      (write_done true ∷ write_done true ∷ read_done true some_pair ∷ run_one ∷ []) (λ e. cc)
      (λ e. cc)

-- The first call is still in flight, and the second one's operation is queued.
abbrev half_way : List Client.Event
half_way = Client.start 0 no_forks 7 ∷ Client.start 1 no_forks 8 ∷ Client.finished 1 true ∷ []

abbrev second_queued : Client.World
second_queued = record {
  used = 0 ∷ 1 ∷ [];
  sent = no_forks ∷ no_forks ∷ [];
  in_flight = 0 ∷ [];
  posted = 1 ∷ [];
  operations = record { handler = 7; is_live = true } ∷ record { handler = 8; is_live = true } ∷ [];
  upcalls = [];
}

half_way-run : Client.run half_way Client.new_world ≡ ok second_queued
unfolding Client.run Client.deliver Client.set_status Client.initiate_async_set_status
    Client.do_complete Client.on_status
half_way-run = refl

run-IsDrained_example :
    (more : List Client.Event) × (u : Client.World) × (Client.run
        (half_way ++ more)
        Client.new_world
      ≡ ok u)
    × (handlers_of u ≡ handlers_of second_queued)
    × IsDrained u
run-IsDrained_example = run-IsDrained half_way second_queued (refl, (refl, tt)) half_way-run

-- A SEEK that is answered, and the end of the call.
abbrev seek_and_close : List OwnEvent
seek_and_close =
    own_start seek_request 3
    ∷ own (write_done true)
    ∷ own (read_done true some_pair)
    ∷ own run_one
    ∷ own_start async_close 4
    ∷ own (done true)
    ∷ own run_one
    ∷ []

alone-IsTyped_example : Leaves IsTyped (alone seek_and_close new_world)
alone-IsTyped_example = alone-IsTyped seek_and_close
