-- ===== src/Ethdb/RemoteCursor/Answered.antt =====
-- The methods of a cursor when the server answers.
use silkoroutine.Common.{
  ℕ, Bytes, List, [], ◌∷◌, ◌≡◌, ◌≢◌, ap, some, get_elem?, set, ◌==◌, false, arith,
}
use silkoroutine.Remote.{Pair}
use silkoroutine.Kv.Exec.{Event}
use silkoroutine.Kv.Awaitables.{async_open_cursor, async_seek, async_next, async_close_cursor}
use silkoroutine.Kv.Exchange.{answered, calls_of}
use silkoroutine.Ethdb.Session.{Session, value, continue}
use silkoroutine.Ethdb.Session.Answered.{Spoke, await-answered}
use silkoroutine.Ethdb.RemoteCursor.{open_cursor, seek_key, next, close_cursor, key_value}

-- A cursor that is open stays as it is, and nothing is sent, whatever the table.
pub open_cursor_again :
    (self : ℕ) (table : Bytes) (n : ℕ) (s : Session)
    → get_elem? s.heap self ≡ some n
    → n ≢ 0
    → open_cursor self table s ≡ (value tt, s)
unfolding open_cursor
open_cursor_again self table n s e ne = rw e (ground arith)

-- So does a cursor that is closed, when it is closed again.
pub close_cursor_again :
    (self : ℕ) (s : Session) → get_elem? s.heap self ≡ some 0 → close_cursor self s ≡ (value tt, s)
unfolding close_cursor
close_cursor_again self s e = rw e

module _ (self : ℕ) (p : Pair) (rest : List (List Event)) (s : Session)
    (quiet : s.world.posted ≡ []) where
  pub open_cursor-answered :
      (table : Bytes)
      → get_elem? s.heap self ≡ some 0
      → s.events ≡ answered (async_open_cursor table) p ∷ rest
      → (t : Session) × (open_cursor self table s ≡ (value tt, t))
        × Spoke (calls_of (async_open_cursor table)) rest s t
        × (t.heap ≡ set s.heap self p.cursorid)
  unfolding open_cursor
  open_cursor-answered table e ev =
      let (t, run, spoke, same) = await-answered (async_open_cursor table) p rest s quiet ev in
      (
        record t { heap = set t.heap self p.cursorid },
        rw e (rw run),
        record {
          calls = spoke.calls;
          posted = spoke.posted;
          events = spoke.events;
          cursors = spoke.cursors;
        },
        ap (λ (h : List ℕ). set h self p.cursorid) same,
      )

  pub seek_key-answered :
      (n : ℕ) (key : Bytes)
      → get_elem? s.heap self ≡ some n
      → s.events ≡ answered (async_seek n key) p ∷ rest
      → (t : Session) × (seek_key self key s ≡ (value (key_value p), t))
        × Spoke (calls_of (async_seek n key)) rest s t
        × (t.heap ≡ s.heap)
  unfolding seek_key
  seek_key-answered n key e ev =
      let (t, run, spoke, same) = await-answered (async_seek n key) p rest s quiet ev in
      (t, rw e (rw run), spoke, same)

  pub next-answered :
      (n : ℕ)
      → get_elem? s.heap self ≡ some n
      → s.events ≡ answered (async_next n) p ∷ rest
      → (t : Session) × (next self s ≡ (value (key_value p), t))
        × Spoke (calls_of (async_next n)) rest s t
        × (t.heap ≡ s.heap)
  unfolding next
  next-answered n e ev =
      let (t, run, spoke, same) = await-answered (async_next n) p rest s quiet ev in
      (t, rw e (rw run), spoke, same)

  pub close_cursor-answered :
      (n : ℕ)
      → get_elem? s.heap self ≡ some n
      → n ≢ 0
      → s.events ≡ answered (async_close_cursor n) p ∷ rest
      → (t : Session) × (close_cursor self s ≡ (value tt, t))
        × Spoke (calls_of (async_close_cursor n)) rest s t
        × (t.heap ≡ set s.heap self 0)
  unfolding close_cursor
  close_cursor-answered n e ne ev =
      let (t, run, spoke, same) = await-answered (async_close_cursor n) p rest s quiet ev in
      let closed : (n == 0) ≡ false = ground arith in
      (
        record t { heap = set t.heap self 0 },
        rw (e, continue) (rw (closed, run)),
        record {
          calls = spoke.calls;
          posted = spoke.posted;
          events = spoke.events;
          cursors = spoke.cursors;
        },
        ap (λ (h : List ℕ). set h self 0) same,
      )
