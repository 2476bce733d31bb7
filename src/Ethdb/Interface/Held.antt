-- ===== src/Ethdb/Interface/Held.antt =====
-- The cursors that a transaction of the remote database has by table, which no use of a cursor and
-- no other transaction takes away.
use silkoroutine.Common.{
  get_elem?-set_ne, ℕ, Bytes, some, ◌≡◌, ◌≢◌, refl, sym, ap, ◌∙◌, subst, ◌==◌, ==_iff, get_elem?,
  get_elem?-set_self, lt_of_get_elem?, Option-cases, Bool-cases, inl, inr,
}
use silkoroutine.Ethdb.Session.{
  Session, Routine, Result, value, thrown, undefined, suspended, continue, pure,
}
use silkoroutine.Ethdb.TableMap.{TableMap, find}
use silkoroutine.Ethdb.Interface.{Cursor, Transaction}
use silkoroutine.Ethdb.Interface.Remote.{
  Sessions, remote_cursor, remote_transaction, cursor_within, transaction_within, within,
}
use silkoroutine.Ethdb.Interface.Closing.{
  Use, after, use_cursor_id, use_next, use_close_cursor, use_open_cursor, use_seek_key, use_seek,
}
use silkoroutine.Ethdb.RemoteTransaction
use silkoroutine.Ethdb.RemoteTransaction.Sharing.{Given, cursor_for-Given}
use silkoroutine.Ethdb.RemoteCursor.Any.{
  SameShape, SameShape-refl, load-SameShape, open_cursor-SameShape, seek_key-SameShape,
  next-SameShape, close_cursor-SameShape, seek-SameShape,
}

-- What the coroutines of one transaction keep of it, those of any other keep as well.
within-keeps :
    {A : Type 0} (P : Session → Type 0) (i j : ℕ) (m : Routine Session A) (s : Sessions)
    (u : Session)
    → get_elem? s.begun i ≡ some u
    → P u
    → ((v : Session) → P v → P (m v).1)
    → (u' : Session) × (get_elem? (within j m s).1.begun i ≡ some u') × P u'
unfolding within
within-keeps P i j m s u there p keeps = elim (Option-cases (get_elem? s.begun j)) [
  | inl e ↦ (u, simp e there, p)
  | inr (v, e) ↦ elim (Bool-cases (i == j)) [
    | inl same ↦
        let ij : i ≡ j = (==_iff i j).0 same in
        let held : get_elem? s.begun i ≡ some v = rw ij e in
        let uv : u ≡ v = cc in
        (
          (m v).1,
          simp (e, ij) (get_elem?-set_self s.begun j (m v).1 (lt_of_get_elem? s.begun j v e)),
          keeps v (subst P uv p),
        )
    | inr other ↦ (u, simp e (get_elem?-set_ne s.begun i j (m v).1 other ∙ there), p)
  ]
]

-- The transaction `i` has the cursor `a` under a table.
pub record IsHeld (tx : Transaction Sessions) (c : Cursor Sessions) (s : Sessions) : Type 0 where
  pub number : ℕ
  pub self : ℕ
  pub table : Bytes
  pub session : Session
  pub transaction : tx ≡ transaction_within number remote_transaction
  pub cursor : c ≡ cursor_within number (remote_cursor self)
  pub there : get_elem? s.begun number ≡ some session
  pub found : find table session.cursors ≡ some self

keeps-IsHeld :
    {A : Type 0} (tx : Transaction Sessions) (c : Cursor Sessions) (s : Sessions) (j : ℕ)
    (m : Routine Session A)
    → ((table : Bytes) (a : ℕ) (v : Session)
        → find table v.cursors ≡ some a
        → find table (m v).1.cursors ≡ some a)
    → IsHeld tx c s
    → IsHeld tx c (within j m s).1
keeps-IsHeld tx c s j m keeps h =
    let (u, there, found) =
      within-keeps (λ v. find h.table v.cursors ≡ some h.self) h.number j m s h.session h.there
        h.found (keeps h.table h.self) in
    record {
      number = h.number;
      self = h.self;
      table = h.table;
      session = u;
      transaction = h.transaction;
      cursor = h.cursor;
      there = there;
      found = found;
    }

module _ (a : ℕ) (v : Session) where
  -- A use of a cursor changes no entry of the map.
  use-SameShape : (u : Use) → SameShape v (after u (remote_cursor a) v)
  unfolding after
  use-SameShape use_cursor_id = load-SameShape v (get_elem? v.heap a) v (SameShape-refl v)
  use-SameShape use_next = next-SameShape v a v (SameShape-refl v)
  use-SameShape use_close_cursor = close_cursor-SameShape v a v (SameShape-refl v)
  use-SameShape (use_open_cursor table) = open_cursor-SameShape v a table v (SameShape-refl v)
  use-SameShape (use_seek_key key) = seek_key-SameShape v a key v (SameShape-refl v)
  use-SameShape (use_seek table key) = seek-SameShape v a table key v (SameShape-refl v)

  use-found :
      (u : Use) (table : Bytes) (b : ℕ)
      → find table v.cursors ≡ some b
      → find table (after u (remote_cursor a) v).cursors ≡ some b
  use-found u table b e =
      subst (λ (m : TableMap ℕ). find table m ≡ some b) (sym (use-SameShape u).cursors) e

pub use-IsHeld :
    (tx : Transaction Sessions) (c : Cursor Sessions) (s : Sessions) (j a : ℕ) (u : Use)
    → IsHeld tx c s
    → IsHeld tx c (after u (cursor_within j (remote_cursor a)) s)
unfolding after
use-IsHeld tx c s j a use_cursor_id =
    keeps-IsHeld tx c s j (remote_cursor a).cursor_id λ t b v. use-found a v use_cursor_id t b
use-IsHeld tx c s j a use_next =
    keeps-IsHeld tx c s j (remote_cursor a).next λ t b v. use-found a v use_next t b
use-IsHeld tx c s j a use_close_cursor =
    keeps-IsHeld tx c s j (remote_cursor a).close_cursor λ t b v. use-found a v use_close_cursor t b
use-IsHeld tx c s j a (use_open_cursor table) =
    keeps-IsHeld tx c s j ((remote_cursor a).open_cursor table)
      λ t b v. use-found a v (use_open_cursor table) t b
use-IsHeld tx c s j a (use_seek_key key) =
    keeps-IsHeld tx c s j ((remote_cursor a).seek_key key)
      λ t b v. use-found a v (use_seek_key key) t b
use-IsHeld tx c s j a (use_seek table key) =
    keeps-IsHeld tx c s j ((remote_cursor a).seek table key)
      λ t b v. use-found a v (use_seek table key) t b

Given-other :
    (table other : Bytes) (v : Session) (r : Result ℕ × Session)
    → Given table other v r
    → find other r.1.cursors ≡ find other v.cursors
Given-other table other v (value a, t) g = g.1
Given-other table other v (thrown x, t) g = ap (find other) g
Given-other table other v (undefined, t) g = ap (find other) g
Given-other table other v (suspended, t) g = ap (find other) g

-- To give a cursor changes no entry that is there.
cursor_for-found :
    (table other : Bytes) (b : ℕ) (v : Session)
    → find other v.cursors ≡ some b
    → find other (RemoteTransaction.cursor_for table v).1.cursors ≡ some b
unfolding RemoteTransaction.cursor_for
cursor_for-found table other b v e = elim (Option-cases (find table v.cursors)) [
  | inl new ↦
      let ne : table ≢ other = λ q. cc (ap (λ (k : Bytes). find k v.cursors) q) in
      Given-other table other v (RemoteTransaction.cursor_for table v)
        (cursor_for-Given table other ne v)
      ∙ e
  | inr (a, found) ↦ rw (found, RemoteTransaction.cursor_for) e
]

pure-state :
    {S A B : Type 0} (f : A → B) (r : Result A × S) → (continue (λ a. pure (f a)) r).1 ≡ r.1
pure-state f (value a, s) = refl
pure-state f (thrown x, s) = refl
pure-state f (undefined, s) = refl
pure-state f (suspended, s) = refl

pub cursor_for-IsHeld :
    (tx : Transaction Sessions) (c : Cursor Sessions) (s : Sessions) (j : ℕ) (table : Bytes)
    → IsHeld tx c s
    → IsHeld tx c ((transaction_within j remote_transaction).cursor_for table s).1
cursor_for-IsHeld tx c s j table h =
    subst (IsHeld tx c)
      (sym (pure-state (cursor_within j) (within j (remote_transaction.cursor_for table) s)))
      (keeps-IsHeld tx c s j (remote_transaction.cursor_for table)
        (λ t b v e.
          subst (λ (w : Session). find t w.cursors ≡ some b)
            (sym (pure-state remote_cursor (RemoteTransaction.cursor_for table v)))
            (cursor_for-found table t b v e))
        h)
