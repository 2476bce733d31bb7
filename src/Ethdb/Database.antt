-- ===== src/Ethdb/Database.antt =====
-- silkoroutine/ethdb/kv/remote_database.hpp: the transactions of a database. Each has a reactor and
-- operations of its own; they share the `io_context`, whose queue holds the handlers of all.
pub mod Queue
pub mod Frame
pub mod Isolation
use silkoroutine.Common.{ℕ, ◌+◌, Bool, List, [], ◌∷◌, ◌++◌, map, ◌==◌, ltb, if◌then◌else◌}
use silkoroutine.Remote.{Pair}
use silkoroutine.Kv.World.{World, Command, Outcome, ok, raised, fault, new_world}
use silkoroutine.Kv.Exec.{Event, deliver, exec, ◌>>=◌}
use silkoroutine.Kv.Awaitables.{Request, initiate}

-- The transactions that were begun are numbered from 0. Under the other numbers stand the worlds
-- that they will begin with. The queue of a transaction's own world is empty: its handlers are in
-- the queue of the context, with its number.
pub record RemoteDatabase : Type 0 where
  pub begun : ℕ
  pub transactions : ℕ → World
  pub queue : List (ℕ × Command)

abbrev pub new_database : RemoteDatabase
new_database = record { begun = 0; transactions = λ i. new_world; queue = [] }

abbrev pub update : ℕ → World → (ℕ → World) → ℕ → World
update i w f j = if i == j then w else f j

-- `RemoteDatabase::begin`, with the constructor of `RemoteTransaction`.
abbrev pub begin : RemoteDatabase → RemoteDatabase
begin d = record d { begun = d.begun + 1 }

abbrev pub tagged : ℕ → List Command → List (ℕ × Command)
tagged i cs = map (λ c. (i, c)) cs

-- The state of the database behind a run of a transaction: what it posted joins the queue.
abbrev pub keep : ℕ → RemoteDatabase → World → RemoteDatabase
keep i d w = record d {
  transactions = update i (record w { posted = [] }) d.transactions;
  queue = d.queue ++ tagged i w.posted;
}

abbrev pub keep_all : ℕ → RemoteDatabase → Outcome World → Outcome RemoteDatabase
keep_all i d (ok w) = ok (keep i d w)
keep_all i d (raised e w) = raised e (keep i d w)
keep_all i d fault = fault

-- The code `f` runs for the transaction `i`.
unfoldable pub act : ℕ → (World → Outcome World) → RemoteDatabase → Outcome RemoteDatabase
act i f d = keep_all i d (f (record (d.transactions i) { posted = [] }))

-- What happens next: a transaction begins, its owner starts a request with a handler, gRPC reports
-- to its reactor, or the thread of the `io_context` runs the first handler of the queue.
pub data SharedEvent : Type 0 where
  begins : SharedEvent
  starts : ℕ → Request → ℕ → SharedEvent
  write_done : ℕ → Bool → SharedEvent
  read_done : ℕ → Bool → Pair → SharedEvent
  done : ℕ → Bool → SharedEvent
  run_one : SharedEvent

unfoldable pub run_first : List (ℕ × Command) → RemoteDatabase → Outcome RemoteDatabase
unfolding act exec
run_first [] d = ok d
run_first ((i, c) ∷ cs) d = act i (exec c) (record d { queue = cs })

-- Nothing happens to a transaction that was not begun.
abbrev pub if_begun : ℕ → (World → Outcome World) → RemoteDatabase → Outcome RemoteDatabase
if_begun i f d = if ltb i d.begun then act i f d else ok d

unfoldable pub deliver_shared : SharedEvent → RemoteDatabase → Outcome RemoteDatabase
unfolding act run_first initiate deliver
deliver_shared begins d = ok (begin d)
deliver_shared (starts i r h) d = if_begun i (initiate r h) d
deliver_shared (write_done i b) d = if_begun i (deliver (Event.write_done b)) d
deliver_shared (read_done i b p) d = if_begun i (deliver (Event.read_done b p)) d
deliver_shared (done i b) d = if_begun i (deliver (Event.done b)) d
deliver_shared run_one d = run_first d.queue d

unfoldable pub run : List SharedEvent → RemoteDatabase → Outcome RemoteDatabase
unfolding deliver_shared
run [] d = ok d
run (e ∷ es) d = deliver_shared e d >>= run es
