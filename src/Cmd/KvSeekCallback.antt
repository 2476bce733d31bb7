-- ===== src/Cmd/KvSeekCallback.antt =====
-- cmd/kv_seek_async_callback.cpp: a seek by callbacks that a reactor calls. The lambdas of `main`
-- are constructors, with the cursor's number that they capture; the table and the key are
-- arguments.
pub mod Quiet
pub mod Hangs
use silkoroutine.Common.{
  ℤ, pos, negsuc, ℕ, Bool, true, false, Bytes, List, [], ◌∷◌, ◌++◌, Option, none, some,
  if◌then◌else◌,
}
use silkoroutine.Util.{byte_view_of_string}
use silkoroutine.Remote.{Cursor, Pair, empty_pair, open_message, seek_message, close_message}
use silkoroutine.Cmd.KvFlags.{Flags, check_timeout}
use silkoroutine.Kv.World.{Item, text, number, chars, bytes}

-- `OnWriteDone` and `OnReadDone` call these, named for the message and the pair that they wait for.
pub data WriteCallback : Type 0 where
  open_written : WriteCallback
  seek_written close_written : ℕ → WriteCallback

pub data ReadCallback : Type 0 where
  open_read close_read : ReadCallback
  seek_read : ℕ → ReadCallback

-- The reactor, the context and the standard output. `reading` and `writing` tell whether gRPC has
-- an operation of that kind that is not done.
pub record Reactor : Type 0 where
  pub pair : Pair
  pub read_completed : Option ReadCallback
  pub write_completed : Option WriteCallback
  pub reading : Bool
  pub writing : Bool
  pub sent : List Cursor
  pub shown : List (List Item)
  pub stopped : Bool

abbrev pub new_reactor : Reactor
new_reactor = record {
  pair = empty_pair;
  read_completed = none;
  write_completed = none;
  reading = false;
  writing = false;
  sent = [];
  shown = [];
  stopped = false;
}

abbrev read_start : ReadCallback → Reactor → Reactor
read_start c r = record r { read_completed = some c; reading = true }

abbrev write_start : Cursor → WriteCallback → Reactor → Reactor
write_start m c r = record r { write_completed = some c; writing = true; sent = r.sent ++ m ∷ [] }

abbrev show : List Item → Reactor → Reactor
show line r = record r { shown = r.shown ++ line ∷ [] }

abbrev stop : Reactor → Reactor
stop r = record r { stopped = true }

-- The bodies of the lambdas, by what they are given.
unfoldable pub written : Bytes → Bytes → WriteCallback → Bool → Reactor → Reactor
written table key open_written false r = show (text "error writing OPEN gRPC" ∷ []) r
written table key open_written true r =
    read_start open_read (show (text "KV Tx OPEN -> table_name: " ∷ chars table ∷ []) r)
written table key (seek_written id) false r = show (text "error writing SEEK gRPC" ∷ []) r
written table key (seek_written id) true r =
    read_start (seek_read id)
      (show (text "KV Tx SEEK -> cursor: " ∷ number id ∷ text " seek_key: " ∷ bytes key ∷ []) r)
written table key (close_written id) false r = show (text "error writing CLOSE gRPC" ∷ []) r
written table key (close_written id) true r =
    read_start close_read (show (text "KV Tx CLOSE -> cursor: " ∷ number id ∷ []) r)

unfoldable pub received : Bytes → ReadCallback → Bool → Pair → Reactor → Reactor
received key open_read false p r = show (text "error reading OPEN gRPC" ∷ []) r
received key open_read true p r =
    write_start (seek_message p.cursorid key) (seek_written p.cursorid)
      (show (text "KV Tx OPEN <- cursor: " ∷ number p.cursorid ∷ []) r)
received key (seek_read id) false p r = show (text "error reading SEEK gRPC" ∷ []) r
received key (seek_read id) true p r = write_start (close_message id) (close_written id) (
    show
      (text "KV Tx SEEK <- key: "
        ∷ bytes (byte_view_of_string p.k)
        ∷ text " value: "
        ∷ bytes (byte_view_of_string p.v)
        ∷ [])
      r)
received key close_read false p r = show (text "error reading CLOSE gRPC" ∷ []) r
received key close_read true p r =
    stop (show (text "KV Tx CLOSE <- cursor: " ∷ number p.cursorid ∷ []) r)

-- What comes while `context.run()` has not returned: gRPC ends a write, or a read, which has put a
-- pair in the buffer if it is `ok`; or the process gets a signal, with its number and with the text
-- that its error has. The other callbacks of a reactor are not overridden and do nothing.
pub data Event : Type 0 where
  write_done : Bool → Event
  read_done : Option Pair → Event
  signal : Bytes → ℕ → Event

-- What events come to. `impossible` is one that nothing is outstanding for, or that comes when the
-- context is stopped and `main` returns; `threw` is the call of an empty `std::function`.
pub data Next (A : Type 0) : Type 0 where
  comes : A → Next A
  impossible threw : Next A

abbrev on_write_done : Bytes → Bytes → Bool → Option WriteCallback → Reactor → Next Reactor
on_write_done table key ok none r = threw
on_write_done table key ok (some c) r = comes (written table key c ok r)

abbrev on_read_done : Bytes → Bool → Option ReadCallback → Reactor → Next Reactor
on_read_done key ok none r = threw
on_read_done key ok (some c) r = comes (received key c ok r.pair r)

-- The handler of the signals.
abbrev on_signal : Bytes → ℕ → Reactor → Reactor
on_signal what signal_number r = stop (
    show (text "Signal caught, error: " ∷ chars what ∷ text " number: " ∷ number signal_number ∷ [])
      r)

unfoldable pub happen : Bytes → Bytes → Event → Reactor → Next Reactor
happen table key (write_done ok) r =
    if r.writing
    then on_write_done table key ok r.write_completed (record r { writing = false })
    else impossible
happen table key (read_done none) r =
    if r.reading
    then on_read_done key false r.read_completed (record r { reading = false })
    else impossible
happen table key (read_done (some p)) r =
    if r.reading
    then on_read_done key true r.read_completed (record r { reading = false; pair = p })
    else impossible
happen table key (signal what signal_number) r = comes (on_signal what signal_number r)

unfoldable pub deliver : Bytes → Bytes → Event → Reactor → Next Reactor
unfolding happen
deliver table key e r = if r.stopped then impossible else happen table key e r

abbrev pub after : (Reactor → Next Reactor) → Next Reactor → Next Reactor
after f (comes r) = f r
after f impossible = impossible
after f threw = threw

unfoldable pub deliver_all : Bytes → Bytes → List Event → Reactor → Next Reactor
deliver_all table key [] r = comes r
deliver_all table key (e ∷ es) r = after (deliver_all table key es) (deliver table key e r)

-- `main` after the flags, up to `context.run()`.
abbrev pub started : Bytes → Reactor
started table = write_start (open_message table) open_written new_reactor

abbrev pub returned : Next Reactor → Next (Option ℤ)
returned (comes r) = comes (if r.stopped then some (pos 0) else none)
returned impossible = impossible
returned threw = threw

-- `main`, after these events: `none` while `context.run()` has not returned.
unfoldable pub main : Flags → List Event → Next (Option ℤ)
main f es = elim (check_timeout f) [
  | none ↦ comes (some (negsuc 0))
  | some key ↦ returned (deliver_all f.table key es (started f.table))
]
