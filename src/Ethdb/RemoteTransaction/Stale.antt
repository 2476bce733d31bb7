-- ===== src/Ethdb/RemoteTransaction/Stale.antt =====
-- A cursor of the map that was closed meanwhile.
use silkoroutine.Common.{ℕ, Bytes, some, ◌≡◌, refl, ap, subst}
use silkoroutine.Util.{KeyValue}
use silkoroutine.Kv.Awaitables.{async_seek}
use silkoroutine.Ethdb.TableMap.{find}
use silkoroutine.Ethdb.Session.{Session, Result, value, continue, pure, await_pair}
use silkoroutine.Ethdb.Session.Any.{continue-eq-value}
use silkoroutine.Ethdb.RemoteCursor.{open_cursor, seek_key, close_cursor, seek, key_value}
use silkoroutine.Ethdb.RemoteCursor.Any.{seek-SameShape, SameShape-refl}
use silkoroutine.Ethdb.RemoteTransaction.{cursor_for}
use silkoroutine.Ethdb.RemoteTransaction.Closing.{IsClosed, close_cursor-IsClosed}

-- A seek by table that returns has closed its cursor, also one that it found open.
seek-IsClosed :
    (a : ℕ) (table key : Bytes) (s t : Session) (kv : KeyValue)
    → seek a table key s ≡ (value kv, t)
    → IsClosed a t
unfolding seek
seek-IsClosed a table key s t kv e =
    let (_, s1, _, e1) = continue-eq-value _ (open_cursor a table s) e in
    let (p, s2, _, e2) = continue-eq-value _ (seek_key a key s1) e1 in
    let (_, s3, closed, e3) = continue-eq-value _ (close_cursor a s2) e2 in
    subst (IsClosed a) (ap (λ x. x.1) e3) (close_cursor-IsClosed a s2 s3 closed).0

-- Where the map has a cursor for a table, and a seek by table with this cursor has returned,
-- whatever gRPC and the server did: asked again, the transaction gives the same cursor, which is
-- closed now, opens none and sends nothing. A seek by key with it is then a SEEK for the cursor 0.
pub cursor_for-seek :
    (table key : Bytes) (a : ℕ) (s t : Session) (kv : KeyValue)
    → find table s.cursors ≡ some a
    → seek a table key s ≡ (value kv, t)
    → (cursor_for table t ≡ (value a, t))
      × IsClosed a t
      × ((k : Bytes)
          → seek_key a k t ≡ continue (λ p. pure (key_value p)) (await_pair (async_seek 0 k) t))
unfolding cursor_for seek_key
cursor_for-seek table key a s t kv found e =
    let same : t.cursors ≡ s.cursors =
      subst (λ (r : Result KeyValue × Session). r.1.cursors ≡ s.cursors) e
        (seek-SameShape s a table key s (SameShape-refl s)).cursors in
    let found' : find table t.cursors ≡ some a = rw same found in
    let closed = seek-IsClosed a table key s t kv e in
    (rw (found', cursor_for) refl, closed, λ k. rw closed refl)
