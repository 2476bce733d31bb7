-- ===== src/Ethdb/RemoteTransaction/Invariant.antt =====
-- The map of a transaction points to cursors that exist, and to a different one for each table,
-- whatever gRPC and the server do.
use silkoroutine.Common.{
  ℕ, Bytes, List, [], ◌∷◌, ◌++◌, ◌≢◌, ◌<◌, ◌≤◌, length, length-append, All, arith, Option-cases,
  inl, inr,
}
use silkoroutine.Kv.Exec.{Event}
use silkoroutine.Kv.Awaitables.{async_close}
use silkoroutine.Ethdb.TableMap.{TableMap, find, insert}
use silkoroutine.Ethdb.TableMap.Laws.{All-insert}
use silkoroutine.Ethdb.Session.{Session, await_id, begin}
use silkoroutine.Ethdb.Session.Any.{continue-keeps, continue-leads, await_id-Untouched}
use silkoroutine.Ethdb.RemoteCursor.{new_cursor, open_cursor, seek_key, next, close_cursor, seek}
use silkoroutine.Ethdb.RemoteCursor.Any.{
  SameShape, SameShape-refl, open_cursor-SameShape, seek_key-SameShape, next-SameShape,
  close_cursor-SameShape, seek-SameShape,
}
use silkoroutine.Ethdb.RemoteTransaction.{cursor_for, close, open_new, close_each}

abbrev pub Below : ℕ → TableMap ℕ → Type 0
Below n = All (λ (e : Bytes × ℕ). e.1 < n)

abbrev pub Apart : ℕ → TableMap ℕ → Type 0
Apart a = All (λ (e : Bytes × ℕ). e.1 ≢ a)

abbrev pub Distinct : TableMap ℕ → Type 0
Distinct [] = Unit {0}
Distinct ((k, a) ∷ m) = Apart a m × Distinct m

pub record IsValid (s : Session) : Type 0 where
  pub bounded : Below (length s.heap) s.cursors
  pub distinct : Distinct s.cursors

pub Below-mono : (m n : ℕ) (es : TableMap ℕ) → m ≤ n → Below m es → Below n es
Below-mono m n [] h b = tt
Below-mono m n (e ∷ es) h b = (omega arith, Below-mono m n es h b.1)

Below-Apart : (n : ℕ) (es : TableMap ℕ) → Below n es → Apart n es
Below-Apart n [] b = tt
Below-Apart n (e ∷ es) b = (omega arith, Below-Apart n es b.1)

Distinct-insert :
    (k : Bytes) (a : ℕ) (m : TableMap ℕ) → Below a m → Distinct m → Distinct (insert k a m)
unfolding insert
Distinct-insert k a [] b d = (tt, tt)
Distinct-insert k a ((j, c) ∷ m) b d =
    ground
      (arith, Below-Apart a m b.1, Distinct-insert k a m b.1 d.1, All-insert (λ x. x ≢ c) k a m)

-- The cursor at `a` is newer than those of the map.
record IsNew (a : ℕ) (s : Session) : Type 0 where
  exists : a < length s.heap
  newer : Below a s.cursors
  distinct : Distinct s.cursors

insert-IsValid :
    (table : Bytes) (a : ℕ) (s : Session)
    → IsNew a s
    → IsValid (record s { cursors = insert table a s.cursors })
insert-IsValid table a s h = record {
  bounded =
      All-insert (λ x. x < length s.heap) table a s.cursors h.exists
        (Below-mono a (length s.heap) s.cursors (omega (arith, h.exists)) h.newer);
  distinct = Distinct-insert table a s.cursors h.newer h.distinct;
}

IsNew-IsValid : (a : ℕ) (s : Session) → IsNew a s → IsValid s
IsNew-IsValid a s h = record {
  bounded = Below-mono a (length s.heap) s.cursors (omega (arith, h.exists)) h.newer;
  distinct = h.distinct;
}

SameShape-IsValid : (s t : Session) → SameShape s t → IsValid s → IsValid t
SameShape-IsValid s t h v = record {
  bounded = rw (h.size, h.cursors) v.bounded;
  distinct = rw h.cursors v.distinct;
}

SameShape-IsNew : (a : ℕ) (s t : Session) → SameShape s t → IsNew a s → IsNew a t
SameShape-IsNew a s t h v = record {
  exists = rw h.size v.exists;
  newer = rw h.cursors v.newer;
  distinct = rw h.cursors v.distinct;
}

new_cursor-IsNew : (s : Session) → IsValid s → IsNew (length s.heap) (new_cursor s).1
unfolding new_cursor
new_cursor-IsNew s v = record {
  exists = omega (arith, length-append s.heap (0 ∷ []));
  newer = v.bounded;
  distinct = v.distinct;
}

open_new-IsValid : (table : Bytes) (s : Session) → IsValid s → IsValid (open_new table s).1
unfolding open_new new_cursor
open_new-IsValid table s v =
    let a = length s.heap in
    let t : Session = record s { heap = s.heap ++ 0 ∷ [] } in
    let opened : IsNew a (open_cursor a table t).1 =
      SameShape-IsNew a t _ (open_cursor-SameShape t a table t (SameShape-refl t))
        (new_cursor-IsNew s v) in
    continue-leads (IsNew a) IsValid _ (open_cursor a table t) opened (IsNew-IsValid a)
      λ _ u k. insert-IsValid table a u k

pub cursor_for-IsValid : (table : Bytes) (s : Session) → IsValid s → IsValid (cursor_for table s).1
unfolding cursor_for
cursor_for-IsValid table s v = elim (Option-cases (find table s.cursors)) [
  | inl e ↦ rw (e, cursor_for) (open_new-IsValid table s v)
  | inr (a, e) ↦ rw (e, cursor_for) v
]

close_each-SameShape :
    (s : Session) (m : TableMap ℕ) (t : Session) → SameShape s t → SameShape s (close_each m t).1
unfolding close_each
close_each-SameShape s [] t h = h
close_each-SameShape s ((table, a) ∷ m) t h =
    continue-keeps (SameShape s) _ (close_cursor a t) (close_cursor-SameShape s a t h)
      λ _ u k. close_each-SameShape s m u k

pub close-IsValid : (s : Session) → IsValid s → IsValid (close s).1
unfolding close
close-IsValid s v =
    continue-leads (SameShape s) IsValid _ (close_each s.cursors s)
      (close_each-SameShape s s.cursors s (SameShape-refl s)) (λ t h. SameShape-IsValid s t h v)
      λ _ t h.
        continue-keeps IsValid _ (await_id async_close (record t { cursors = [] }))
          (let u = await_id-Untouched async_close (record t { cursors = [] }) in
            record { bounded = rw (u.heap, u.cursors) tt; distinct = rw u.cursors tt })
          λ _ w k. k

-- What the owner of a transaction can call: its own members, and those of the cursors that it got.
pub data Call : Type 0 where
  cursor_calls : Call
  cursor_for_calls : Bytes → Call
  close_calls : Call
  open_cursor_calls : ℕ → Bytes → Call
  seek_key_calls : ℕ → Bytes → Call
  seek_calls : ℕ → Bytes → Bytes → Call
  next_calls close_cursor_calls : ℕ → Call

unfoldable pub step : Session → Call → Session
step s cursor_calls = (new_cursor s).1
step s (cursor_for_calls table) = (cursor_for table s).1
step s close_calls = (close s).1
step s (open_cursor_calls self table) = (open_cursor self table s).1
step s (seek_key_calls self key) = (seek_key self key s).1
step s (seek_calls self table key) = (seek self table key s).1
step s (next_calls self) = (next self s).1
step s (close_cursor_calls self) = (close_cursor self s).1

unfoldable pub run : Session → List Call → Session
unfolding step
run s [] = s
run s (c ∷ cs) = run (step s c) cs

new_cursor-IsValid : (s : Session) → IsValid s → IsValid (new_cursor s).1
new_cursor-IsValid s v = IsNew-IsValid _ _ (new_cursor-IsNew s v)

step-IsValid : (s : Session) (c : Call) → IsValid s → IsValid (step s c)
unfolding step
step-IsValid s cursor_calls v = new_cursor-IsValid s v
step-IsValid s (cursor_for_calls table) v = cursor_for-IsValid table s v
step-IsValid s close_calls v = close-IsValid s v
step-IsValid s (open_cursor_calls self table) v =
    SameShape-IsValid s _ (open_cursor-SameShape s self table s (SameShape-refl s)) v
step-IsValid s (seek_key_calls self key) v =
    SameShape-IsValid s _ (seek_key-SameShape s self key s (SameShape-refl s)) v
step-IsValid s (seek_calls self table key) v =
    SameShape-IsValid s _ (seek-SameShape s self table key s (SameShape-refl s)) v
step-IsValid s (next_calls self) v =
    SameShape-IsValid s _ (next-SameShape s self s (SameShape-refl s)) v
step-IsValid s (close_cursor_calls self) v =
    SameShape-IsValid s _ (close_cursor-SameShape s self s (SameShape-refl s)) v

run-IsValid_from : (s : Session) (cs : List Call) → IsValid s → IsValid (run s cs)
unfolding run
run-IsValid_from s [] v = v
run-IsValid_from s (c ∷ cs) v = run-IsValid_from (step s c) cs (step-IsValid s c v)

-- Whatever calls are made of a transaction and its cursors, and whatever gRPC and the server do
-- meanwhile, each entry of the map points to a cursor that exists, and no two tables share one.
pub run-IsValid : (events : List (List Event)) (cs : List Call) → IsValid (run (begin events) cs)
run-IsValid events cs = run-IsValid_from (begin events) cs (record { bounded = tt; distinct = tt })
