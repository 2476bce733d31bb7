-- ===== src/Cmd/KvSeekAsync.antt =====
-- cmd/kv_seek_async.cpp and cmd/kv_seek_async_asio.cpp: a seek over a completion queue.
pub mod Outcomes
use silkoroutine.Common.{
  ℕ, Bool, true, Bytes, List, [], ◌∷◌, ◌++◌, Option, none, some, ℤ, negsuc, ◌==◌, if◌then◌else◌,
}
use silkoroutine.Util.{byte_view_of_string}
use silkoroutine.Remote.{Cursor, Pair, empty_pair, open_message, seek_message, close_message}
use silkoroutine.Kv.World.{Item, text, number, chars, bytes}
use silkoroutine.Cmd.KvFlags.{Flags, check_timeout}
use silkoroutine.Cmd.KvSeek.{Program, ◌>>=◌, ◌>>◌, exit_code}

-- An event of the queue. Where `ok` is true, a read's event comes with a pair in the buffer, and
-- `Finish` with the status in `status`.
pub record Event : Type 0 where
  pub tag : ℕ
  pub ok : Bool
  pub pair : Pair
  pub status_ok : Bool

-- What the program starts on the stream.
pub data Started : Type 0 where
  start_call read finish : Started
  write write_last : Cursor → Started

-- `events` are what `queue.Next` will give: none where it returns false, as it does for ever on a
-- queue that has been shut down and drained. `status_ok` is the variable `status`.
pub record Queue : Type 0 where
  pub events : List (Option Event)
  pub started : List Started
  pub status_ok : Bool
  pub shown : List (List Item)

abbrev pub new_queue : List (Option Event) → Queue
new_queue events = record { events = events; started = []; status_ok = true; shown = [] }

abbrev start_tag : ℕ
start_tag = 0

abbrev open_tag : ℕ
open_tag = 1

abbrev seek_tag : ℕ
seek_tag = 2

abbrev close_tag : ℕ
close_tag = 3

abbrev finish_tag : ℕ
finish_tag = 4

abbrev start : Started → Program Queue (Unit {0})
start c q = (some tt, record q { started = q.started ++ c ∷ [] })

abbrev show : List Item → Program Queue (Unit {0})
show line q = (some tt, record q { shown = q.shown ++ line ∷ [] })

-- What the buffer of a read holds after its event.
abbrev pub pair_of : Event → Pair
pair_of e = if e.ok then e.pair else empty_pair

abbrev status_after : ℕ → Event → Bool → Bool
status_after t e old = if t == finish_tag then e.status_ok else old

abbrev next_with : ℕ → List (Option Event) → Program Queue Pair
next_with t [] q = (none, q)
next_with t (none ∷ es) q = (none, record q { events = es })
next_with t (some e ∷ es) q = (
  if e.tag == t then some (pair_of e) else none,
  record q { events = es; status_ok = status_after e.tag e q.status_ok },
)

-- `queue.Next`, and the return where it gives no event or one with another tag. `ok` is not tested.
abbrev next : ℕ → Program Queue Pair
next t q = next_with t q.events q

abbrev check_status : Program Queue (Unit {0})
check_status q = (if q.status_ok then some tt else none, q)

abbrev done : Program Queue (Unit {0})
done q = (some tt, q)

-- What the two programs share, from the first event that has OPEN_TAG to `Finish` and its test.
unfoldable open_seek_close : (Cursor → Started) → Bytes → Bytes → Program Queue (Unit {0})
open_seek_close close table_name seek_key_bytes = do
  show (text "KV Tx OPEN -> table_name: " ∷ chars table_name ∷ [])
  start (write (open_message table_name))
  _ ← next open_tag
  start read
  open_pair ← next open_tag
  let cursor_id = open_pair.cursorid
  show (text "KV Tx OPEN <- cursor: " ∷ number cursor_id ∷ [])
  show (
      text "KV Tx SEEK -> cursor: "
      ∷ number cursor_id
      ∷ text " seek_key: "
      ∷ bytes seek_key_bytes
      ∷ [])
  start (write (seek_message cursor_id seek_key_bytes))
  _ ← next seek_tag
  start read
  seek_pair ← next seek_tag
  let key_bytes = byte_view_of_string seek_pair.k
  let value_bytes = byte_view_of_string seek_pair.v
  show (text "KV Tx SEEK <- key: " ∷ bytes key_bytes ∷ text " value: " ∷ bytes value_bytes ∷ [])
  show (text "KV Tx CLOSE -> cursor: " ∷ number cursor_id ∷ [])
  start (close (close_message cursor_id))
  _ ← next close_tag
  start read
  close_pair ← next close_tag
  show (text "KV Tx CLOSE <- cursor: " ∷ number close_pair.cursorid ∷ [])
  start finish
  check_status

-- kv_seek_async.cpp, after the flags.
unfoldable pub kv_seek : Bytes → Bytes → Program Queue (Unit {0})
unfolding open_seek_close
kv_seek table_name seek_key_bytes = do
  start start_call
  _ ← next start_tag
  open_seek_close write table_name seek_key_bytes

-- kv_seek_async_asio.cpp.
unfoldable pub kv_seek_async : Bytes → Bytes → Program Queue (Unit {0})
unfolding open_seek_close
kv_seek_async table_name seek_key_bytes = do
  start start_call
  open_seek_close write_last table_name seek_key_bytes
  _ ← next finish_tag
  done

-- The two `main`s: the second posts its function to a context that it then runs.
unfoldable pub main : Flags → Queue → ℤ × Queue
unfolding kv_seek
main f q = elim (check_timeout f) [
  | none ↦ (negsuc 0, q)
  | some key ↦ let (r, p) = kv_seek f.table key q in (exit_code r, p)
]

unfoldable pub main_asio : Flags → Queue → ℤ × Queue
unfolding kv_seek_async
main_asio f q = elim (check_timeout f) [
  | none ↦ (negsuc 0, q)
  | some key ↦ let (r, p) = kv_seek_async f.table key q in (exit_code r, p)
]
