-- ===== src/Ethdb/RemoteCursor/Any.antt =====
-- What the methods of a cursor keep, whatever the environment does.
use silkoroutine.Common.{
  ℕ, Bytes, Option, none, some, ◌≡◌, refl, ◌∙◌, length, length-set, ◌==◌, Bool-cases, inl, inr,
  get_elem?,
}
use silkoroutine.Kv.Awaitables.{async_open_cursor, async_seek, async_next, async_close_cursor}
use silkoroutine.Ethdb.Session.{Session, get_cursor_id, set_cursor_id, load, await_id, await_pair}
use silkoroutine.Ethdb.Session.Any.{
  continue-keeps, Untouched, await_id-Untouched, await_pair-Untouched,
}
use silkoroutine.Ethdb.RemoteCursor.{open_cursor, seek_key, next, close_cursor, seek}

-- No cursor object comes or goes, and the transaction's map stays as it is.
pub record SameShape (s t : Session) : Type 0 where
  pub size : length t.heap ≡ length s.heap
  pub cursors : t.cursors ≡ s.cursors

pub SameShape-refl : (s : Session) → SameShape s s
SameShape-refl s = record { size = refl; cursors = refl }

of_Untouched : {s t u : Session} → SameShape s t → Untouched t u → SameShape s u
of_Untouched h u = record { size = rw u.heap h.size; cursors = rw u.cursors h.cursors }

pub load-SameShape :
    (s : Session) (o : Option ℕ) (t : Session) → SameShape s t → SameShape s (load o t).1
load-SameShape s none t h = h
load-SameShape s (some n) t h = h

set-SameShape :
    (s : Session) (self n : ℕ) (t : Session)
    → SameShape s t
    → SameShape s (set_cursor_id self n t).1
set-SameShape s self n t h = record {
  size = length-set t.heap self n ∙ h.size;
  cursors = h.cursors;
}

module _ (s : Session) (self : ℕ) where
  pub open_cursor-SameShape :
      (table : Bytes) (t : Session) → SameShape s t → SameShape s (open_cursor self table t).1
  unfolding open_cursor
  open_cursor-SameShape table t h =
      continue-keeps (SameShape s) _ (get_cursor_id self t)
        (load-SameShape s (get_elem? t.heap self) t h)
        λ n u k. elim (Bool-cases (n == 0)) [
          | inl e ↦ rw e (
              continue-keeps (SameShape s) (λ m. set_cursor_id self m)
                (await_id (async_open_cursor table) u)
                (of_Untouched k (await_id-Untouched (async_open_cursor table) u))
                (set-SameShape s self))
          | inr e ↦ rw e k
        ]

  pub seek_key-SameShape :
      (key : Bytes) (t : Session) → SameShape s t → SameShape s (seek_key self key t).1
  unfolding seek_key
  seek_key-SameShape key t h =
      continue-keeps (SameShape s) _ (get_cursor_id self t)
        (load-SameShape s (get_elem? t.heap self) t h)
        λ n u k.
          continue-keeps (SameShape s) _ (await_pair (async_seek n key) u)
            (of_Untouched k (await_pair-Untouched (async_seek n key) u)) λ p v i. i

  pub next-SameShape : (t : Session) → SameShape s t → SameShape s (next self t).1
  unfolding next
  next-SameShape t h =
      continue-keeps (SameShape s) _ (get_cursor_id self t)
        (load-SameShape s (get_elem? t.heap self) t h)
        λ n u k.
          continue-keeps (SameShape s) _ (await_pair (async_next n) u)
            (of_Untouched k (await_pair-Untouched (async_next n) u)) λ p v i. i

  pub close_cursor-SameShape : (t : Session) → SameShape s t → SameShape s (close_cursor self t).1
  unfolding close_cursor
  close_cursor-SameShape t h =
      continue-keeps (SameShape s) _ (get_cursor_id self t)
        (load-SameShape s (get_elem? t.heap self) t h)
        λ n u k. elim (Bool-cases (n == 0)) [
          | inl e ↦ rw e k
          | inr e ↦ rw e (
              continue-keeps (SameShape s) (λ _. set_cursor_id self 0)
                (await_id (async_close_cursor n) u)
                (of_Untouched k (await_id-Untouched (async_close_cursor n) u))
                (λ _. set-SameShape s self 0))
        ]

  pub seek-SameShape :
      (table key : Bytes) (t : Session) → SameShape s t → SameShape s (seek self table key t).1
  unfolding seek
  seek-SameShape table key t h =
      continue-keeps (SameShape s) _ (open_cursor self table t) (open_cursor-SameShape table t h)
        λ _ u k.
          continue-keeps (SameShape s) _ (seek_key self key u) (seek_key-SameShape key u k) λ p v i.
            continue-keeps (SameShape s) _ (close_cursor self v) (close_cursor-SameShape v i)
              λ _ w j. j
