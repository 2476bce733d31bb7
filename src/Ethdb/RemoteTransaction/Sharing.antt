-- ===== src/Ethdb/RemoteTransaction/Sharing.antt =====
-- One cursor for each table: what `cursor(table)` gives, and what it does to the map.
use silkoroutine.Common.{
  ℕ, Bytes, none, some, ◌≡◌, ◌≢◌, refl, ap, subst, ◌∙◌, length, Option-cases, inl, inr, [], ◌∷◌,
  ◌++◌, List, set-append_last, arith, get_elem?-append_last,
}
use silkoroutine.Remote.{Pair}
use silkoroutine.Kv.Exec.{Event}
use silkoroutine.Kv.Awaitables.{async_open_cursor}
use silkoroutine.Kv.Exchange.{answered, calls_of}
use silkoroutine.Ethdb.TableMap.{find, insert}
use silkoroutine.Ethdb.TableMap.Laws.{find-insert_self, find-insert_ne}
use silkoroutine.Ethdb.Session.{
  Session, Result, value, thrown, undefined, suspended, continue, Coroutine,
}
use silkoroutine.Ethdb.RemoteCursor.{new_cursor, open_cursor}
use silkoroutine.Ethdb.RemoteCursor.Answered.{open_cursor-answered}
use silkoroutine.Ethdb.RemoteCursor.Any.{SameShape-refl, open_cursor-SameShape}
use silkoroutine.Ethdb.RemoteTransaction.{cursor_for, open_new}

-- The call gave a cursor that the map has under this table, and left what it has under another one
-- as it was, or it gave none and left the map alone.
abbrev pub Given : Bytes → Bytes → Session → Result ℕ × Session → Type 0
Given table other s (value a, t) =
    (find table t.cursors ≡ some a) × (find other t.cursors ≡ find other s.cursors)
Given table other s (thrown e, t) = t.cursors ≡ s.cursors
Given table other s (undefined, t) = t.cursors ≡ s.cursors
Given table other s (suspended, t) = t.cursors ≡ s.cursors

module _ (table other : Bytes) (ne : table ≢ other) where
  inserted :
      (a : ℕ) (s t : Session)
      → t.cursors ≡ s.cursors
      → (find table (insert table a t.cursors) ≡ some a)
        × (find other (insert table a t.cursors) ≡ find other s.cursors)
  inserted a s t e = (
    find-insert_self table a t.cursors,
    find-insert_ne table other a t.cursors ne ∙ ap (find other) e,
  )

  continue-Given :
      (s : Session) (a : ℕ) (f : Unit {0} → Coroutine ℕ) (r : Result (Unit {0}) × Session)
      → r.1.cursors ≡ s.cursors
      → ((u : Session) → f tt u ≡ (value a, record u { cursors = insert table a u.cursors }))
      → Given table other s (continue f r)
  continue-Given s a f (value tt, u) e k = rw (k u) (inserted a s u e)
  continue-Given s a f (thrown x, u) e k = e
  continue-Given s a f (undefined, u) e k = e
  continue-Given s a f (suspended, u) e k = e

  open_new-Given : (s : Session) → Given table other s (open_new table s)
  unfolding open_new new_cursor
  open_new-Given s =
      let t : Session = record s { heap = s.heap ++ 0 ∷ [] } in
      let shape = open_cursor-SameShape t (length s.heap) table t (SameShape-refl t) in
      continue-Given s (length s.heap) _ (open_cursor (length s.heap) table t) shape.cursors
        λ u. refl

  -- Whatever gRPC and the server do: `cursor(table)` gives the cursor that the map then has under
  -- the table, and changes nothing under another table; if it gives none, the map stays as it was.
  pub cursor_for-Given : (s : Session) → Given table other s (cursor_for table s)
  unfolding cursor_for
  cursor_for-Given s = elim (Option-cases (find table s.cursors)) [
    | inl e ↦ rw (e, cursor_for) (open_new-Given s)
    | inr (a, e) ↦ rw (e, cursor_for) (e, refl)
  ]

pub ne_cons : (x : ℕ) (xs : Bytes) → xs ≢ x ∷ xs
ne_cons x xs e = absurd (omega (arith, ap (λ (l : Bytes). length l) e))

-- Asked again for the same table, the transaction gives the same cursor; nothing is sent and
-- nothing changes.
cursor_for_twice :
    (table : Bytes) (a : ℕ) (s t : Session)
    → cursor_for table s ≡ (value a, t)
    → cursor_for table t ≡ (value a, t)
unfolding cursor_for
cursor_for_twice table a s t e =
    let other : Bytes = b'x' ∷ table in
    let given : Given table other s (value a, t) =
      subst (λ (r : Result ℕ × Session). Given table other s r) e
        (cursor_for-Given table other (ne_cons b'x' table) s) in
    rw (given.0, cursor_for) refl

-- For a table that has no cursor yet, and a server that answers the OPEN, `cursor(table)` makes one
-- that holds the id of the answer, and sends just the OPEN.
pub cursor_for_new :
    (table : Bytes) (p : Pair) (rest : List (List Event)) (s : Session)
    → s.world.posted ≡ []
    → find table s.cursors ≡ none
    → s.events ≡ answered (async_open_cursor table) p ∷ rest
    → (t : Session) × (cursor_for table s ≡ (value (length s.heap), t))
      × (t.heap ≡ s.heap ++ p.cursorid ∷ [])
      × (t.world.reactor.calls ≡ s.world.reactor.calls ++ calls_of (async_open_cursor table))
      × (t.world.posted ≡ [])
      × (t.events ≡ rest)
      × (t.cursors ≡ insert table (length s.heap) s.cursors)
unfolding cursor_for open_new new_cursor
cursor_for_new table p rest s quiet new ev =
    let s1 : Session = record s { heap = s.heap ++ 0 ∷ [] } in
    let (t, run, spoke, heap) =
      open_cursor-answered (length s.heap) p rest s1 quiet table (get_elem?-append_last s.heap 0)
        ev in
    (
      record t { cursors = insert table (length s.heap) t.cursors },
      rw (new, cursor_for) (rw run refl),
      heap ∙ set-append_last s.heap 0 p.cursorid,
      spoke.calls,
      spoke.posted,
      spoke.events,
      ap (insert table (length s.heap)) spoke.cursors,
    )
