-- ===== src/Cmd/KvSeekAsync/Outcomes.antt =====
-- What the programs return, and what they have sent then.
use silkoroutine.Common.{
  ℕ, Bool, Bytes, List, [], ◌∷◌, ◌++◌, Option, some, if◌then◌else◌, ◌≡◌, refl, pos,
}
use silkoroutine.Remote.{Cursor, Pair, empty_pair, open_message, seek_message, close_message}
use silkoroutine.Cmd.KvFlags.{Flags, check_timeout}
use silkoroutine.Cmd.KvSeek.{exit_code}
use silkoroutine.Cmd.KvSeekAsync.{
  Event, Started, start_call, read, finish, write, write_last, Queue, new_queue, kv_seek,
  kv_seek_async, main, main_asio,
}

-- The events of the messages, each with its own tag: whether it is `ok`, and its pair, may be
-- anything, and so may the status that comes with the last event.
pub record Answers : Type 0 where
  pub oks : ℕ → Bool
  pub pairs : ℕ → Pair
  pub status_ok : Bool

abbrev pub event : Answers → ℕ → ℕ → Option Event
event a i t = some (record { tag = t; ok = a.oks i; pair = a.pairs i; status_ok = a.status_ok })

abbrev pub exchange_events : Answers → List (Option Event)
exchange_events a =
    event a 1 1 ∷ event a 2 1 ∷ event a 3 2 ∷ event a 4 2 ∷ event a 5 3 ∷ event a 6 3 ∷ []

-- The number that the programs take for the cursor's.
abbrev pub cursor_id : Answers → ℕ
cursor_id a = (if a.oks 2 then a.pairs 2 else empty_pair).cursorid

abbrev pub exchanged : (Cursor → Started) → Bytes → Bytes → ℕ → List Started
exchanged close table key id =
    start_call
    ∷ write (open_message table)
    ∷ read
    ∷ write (seek_message id key)
    ∷ read
    ∷ close (close_message id)
    ∷ read
    ∷ finish
    ∷ []

main-some :
    (f : Flags) (q : Queue) (key : Bytes)
    → check_timeout f ≡ some key
    → main f q ≡ (exit_code (kv_seek f.table key q).0, (kv_seek f.table key q).1)
unfolding main
main-some f q key h = rw (h, main) refl

main_asio-some :
    (f : Flags) (q : Queue) (key : Bytes)
    → check_timeout f ≡ some key
    → main_asio f q ≡ (exit_code (kv_seek_async f.table key q).0, (kv_seek_async f.table key q).1)
unfolding main_asio
main_asio-some f q key h = rw (h, main_asio) refl

-- Neither program looks at `ok` or at the call's real status. Where the flags are right and the
-- queue gives the events with their tags in order, both return 0 whatever the events say, and have
-- sent OPEN, SEEK and CLOSE; where the read of the first pair failed, the last two carry the
-- cursor number 0.
pub main_ignores_ok :
    (f : Flags) (key : Bytes) (a : Answers)
    → check_timeout f ≡ some key
    → ((t : Queue) × (main f (new_queue (event a 0 0 ∷ exchange_events a)) ≡ (pos 0, t))
        × (t.started ≡ exchanged write f.table key (cursor_id a)))
      × ((t : Queue) × (main_asio f (new_queue (exchange_events a ++ event a 7 4 ∷ []))
            ≡ (pos 0, t))
          × (t.started ≡ exchanged write_last f.table key (cursor_id a)))
unfolding kv_seek kv_seek_async
main_ignores_ok f key a h = ((_, main-some f _ key h, refl), (_, main_asio-some f _ key h, refl))
