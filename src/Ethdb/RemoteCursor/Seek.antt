-- ===== src/Ethdb/RemoteCursor/Seek.antt =====
-- `seek(table, key)`, which opens a cursor, seeks and closes it again.
use silkoroutine.Common.{
  ℕ, Bytes, List, [], ◌∷◌, ◌++◌, ◌≡◌, ◌≢◌, refl, ◌∙◌, some, get_elem?, set-set, set-get_elem?,
  append_assoc, get_elem?-set_self, lt_of_get_elem?,
}
use silkoroutine.Remote.{Pair, open_message, seek_message, close_message}
use silkoroutine.Kv.Reactor.{GrpcCall, start_write, start_read}
use silkoroutine.Kv.World.{io_error}
use silkoroutine.Kv.Exec.{Event}
use silkoroutine.Kv.Awaitables.{async_open_cursor, async_seek, async_close_cursor}
use silkoroutine.Kv.Exchange.{answered, unread, calls_of}
use silkoroutine.Ethdb.Session.{Session, value, thrown}
use silkoroutine.Ethdb.Session.Answered.{Spoke, Spoke-trans, await-unread}
use silkoroutine.Ethdb.RemoteCursor.{seek_key, seek, key_value}
use silkoroutine.Ethdb.RemoteCursor.Answered.{
  open_cursor-answered, seek_key-answered, close_cursor-answered, open_cursor_again,
}

-- What `seek` sends when the server opens the cursor under the id `n`.
abbrev pub seek_calls : Bytes → ℕ → Bytes → List GrpcCall
seek_calls table n key =
    start_write (open_message table)
    ∷ start_read
    ∷ start_write (seek_message n key)
    ∷ start_read
    ∷ start_write (close_message n)
    ∷ start_read
    ∷ []

module _ (self : ℕ) (table key : Bytes) (opened found closed : Pair) (rest : List (List Event))
    (s : Session) where
  -- On a closed cursor, `seek` of a key in a table returns what the server answers to the SEEK. It
  -- sends OPEN, SEEK and CLOSE, in this order and with the id that the server gave, reads one
  -- answer to each, and leaves the cursor closed as it was. The id must not be 0, which means
  -- closed.
  pub seek_lem :
      s.world.posted ≡ []
      → get_elem? s.heap self ≡ some 0
      → opened.cursorid ≢ 0
      → s.events
        ≡ answered (async_open_cursor table) opened
          ∷ answered (async_seek opened.cursorid key) found
          ∷ answered (async_close_cursor opened.cursorid) closed
          ∷ rest
      → (t : Session) × (seek self table key s ≡ (value (key_value found), t))
        × Spoke (seek_calls table opened.cursorid key) rest s t
        × (t.heap ≡ s.heap)
  unfolding seek
  seek_lem quiet free positive ev =
      let n : ℕ = opened.cursorid in
      let (s1, run1, spoke1, heap1) = open_cursor-answered self opened _ s quiet table free ev in
      let held1 : get_elem? s1.heap self ≡ some n =
        rw heap1 (get_elem?-set_self s.heap self n (lt_of_get_elem? s.heap self 0 free)) in
      let (s2, run2, spoke2, heap2) =
        seek_key-answered self found _ s1 spoke1.posted n key held1 spoke1.events in
      let held2 : get_elem? s2.heap self ≡ some n = rw heap2 held1 in
      let (s3, run3, spoke3, heap3) =
        close_cursor-answered self closed rest s2 spoke2.posted n held2 positive spoke2.events in
      (
        s3,
        rw (run1, run2, run3) refl,
        Spoke-trans (Spoke-trans spoke1 spoke2) spoke3,
        rw (heap3, heap2, heap1) (set-set s.heap self n 0 ∙ set-get_elem? s.heap self 0 free),
      )

  -- On a closed cursor that the server opens under an id other than 0, where the answer to the SEEK
  -- is not read: `seek` throws and the cursor stays open. Of gRPC were made just the calls of OPEN
  -- and SEEK, so that no CLOSE is sent, and nothing more is waited for.
  pub seek_interrupted :
      s.world.posted ≡ []
      → get_elem? s.heap self ≡ some 0
      → opened.cursorid ≢ 0
      → s.events
        ≡ answered (async_open_cursor table) opened
          ∷ unread (async_seek opened.cursorid key) found
          ∷ rest
      → (t : Session) × (seek self table key s ≡ (thrown (io_error "read failed in SEEK"), t))
        × (get_elem? t.heap self ≡ some opened.cursorid)
        × (t.world.reactor.calls
            ≡ s.world.reactor.calls
              ++ (calls_of (async_open_cursor table) ++ calls_of (async_seek opened.cursorid key)))
        × (t.events ≡ rest)
  unfolding seek seek_key
  seek_interrupted quiet free positive ev =
      let n : ℕ = opened.cursorid in
      let (s1, run1, spoke1, heap1) = open_cursor-answered self opened _ s quiet table free ev in
      let held1 : get_elem? s1.heap self ≡ some n =
        rw heap1 (get_elem?-set_self s.heap self n (lt_of_get_elem? s.heap self 0 free)) in
      let (s2, run2, broke2) =
        await-unread (async_seek n key) found rest s1 spoke1.posted spoke1.events in
      (
        s2,
        rw (run1, held1, run2) refl,
        rw (broke2.heap) held1,
        broke2.calls ∙ simp (spoke1.calls, append_assoc),
        broke2.events,
      )

-- On a cursor that is open already, `seek` of a key in a table seeks in the table that the cursor
-- was opened for, whatever table it is given, and closes the cursor.
pub seek_ignores_table :
    (self : ℕ) (table other key : Bytes) (n : ℕ) (s : Session)
    → get_elem? s.heap self ≡ some n
    → n ≢ 0
    → seek self table key s ≡ seek self other key s
unfolding seek
seek_ignores_table self table other key n s e ne =
    rw (open_cursor_again self table n s e ne, open_cursor_again self other n s e ne)
