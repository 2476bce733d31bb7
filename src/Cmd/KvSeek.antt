-- ===== src/Cmd/KvSeek.antt =====
-- cmd/kv_seek.cpp: a seek over a blocking stream. What goes to `std::cerr` is left out.
pub mod Outcomes
use silkoroutine.Common.{
  Bool, true, false, Bytes, List, [], ◌∷◌, ◌++◌, Option, none, some, ℤ, pos, negsuc,
}
use silkoroutine.Util.{byte_view_of_string}
use silkoroutine.Remote.{Cursor, Pair, open_message, seek_message, close_message}
use silkoroutine.Kv.World.{Item, text, number, chars, bytes}
use silkoroutine.Cmd.KvFlags.{Flags, check}

-- `writes` and `reads` are what the stream's calls of gRPC will return; a stream that has ended
-- returns false. `sent` are the messages given to `Write`, `shown` the lines on `std::cout`.
pub record Stream : Type 0 where
  pub writes : List Bool
  pub reads : List (Option Pair)
  pub sent : List Cursor
  pub shown : List (List Item)

-- `none` is an early `return -1`.
abbrev pub Program : Type 0 → Type 0 → Type 0
Program S A = S → Option A × S

abbrev pub continue : {S A B : Type 0} → (A → Program S B) → Option A × S → Option B × S
continue f (none, s) = (none, s)
continue f (some a, s) = f a s

infixl 5 ◌>>=◌ ◌>>◌
abbrev pub ◌>>=◌ : {S A B : Type 0} → Program S A → (A → Program S B) → Program S B
◌>>=◌ m f s = continue f (m s)

abbrev pub ◌>>◌ : {S B : Type 0} → Program S (Unit {0}) → Program S B → Program S B
m >> k = m >>= λ _. k

abbrev write_with : Cursor → List Bool → Program Stream (Unit {0})
write_with m [] s = (none, record s { sent = s.sent ++ m ∷ [] })
write_with m (false ∷ ws) s = (none, record s { writes = ws; sent = s.sent ++ m ∷ [] })
write_with m (true ∷ ws) s = (some tt, record s { writes = ws; sent = s.sent ++ m ∷ [] })

-- `Write`, and the return where it fails.
abbrev pub write : Cursor → Program Stream (Unit {0})
write m s = write_with m s.writes s

abbrev read_with : List (Option Pair) → Program Stream Pair
read_with [] s = (none, s)
read_with (none ∷ rs) s = (none, record s { reads = rs })
read_with (some p ∷ rs) s = (some p, record s { reads = rs })

abbrev pub read : Program Stream Pair
read s = read_with s.reads s

abbrev pub show : List Item → Program Stream (Unit {0})
show line s = (some tt, record s { shown = s.shown ++ line ∷ [] })

unfoldable pub kv_seek : Bytes → Bytes → Program Stream (Unit {0})
kv_seek table_name seek_key_bytes = do
  write (open_message table_name)
  show (text "KV Tx OPEN -> table_name: " ∷ chars table_name ∷ [])
  open_pair ← read
  let cursor_id = open_pair.cursorid
  show (text "KV Tx OPEN <- cursor: " ∷ number cursor_id ∷ [])
  write (seek_message cursor_id seek_key_bytes)
  show (
      text "KV Tx SEEK -> cursor: "
      ∷ number cursor_id
      ∷ text " seek_key: "
      ∷ bytes seek_key_bytes
      ∷ [])
  seek_pair ← read
  let key_bytes = byte_view_of_string seek_pair.k
  let value_bytes = byte_view_of_string seek_pair.v
  show (text "KV Tx SEEK <- key: " ∷ bytes key_bytes ∷ text " value: " ∷ bytes value_bytes ∷ [])
  write (close_message cursor_id)
  show (text "KV Tx CLOSE -> cursor: " ∷ number cursor_id ∷ [])
  close_pair ← read
  show (text "KV Tx CLOSE <- cursor: " ∷ number close_pair.cursorid ∷ [])

abbrev pub exit_code : Option (Unit {0}) → ℤ
exit_code none = negsuc 0
exit_code (some _) = pos 0

unfoldable pub main : Flags → Stream → ℤ × Stream
unfolding kv_seek
main f s = elim (check f) [
  | none ↦ (negsuc 0, s)
  | some key ↦ let (r, t) = kv_seek f.table key s in (exit_code r, t)
]
