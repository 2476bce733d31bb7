-- ===== src/Ethdb/Interface/RemoteCloses.antt =====
-- The remote database closes the cursors of a transaction with it, whatever gRPC does.
use silkoroutine.Common.{
  ℕ, Bytes, List, [], ◌∷◌, some, ◌≡◌, refl, sym, ap, ◌∙◌, subst, All, get_elem?, set, length,
  get_elem?-set_self, lt_of_get_elem?, set-get_elem?, arith, Option-cases, inl, inr,
}
use silkoroutine.Ethdb.Session.{
  Session, Routine, Result, value, thrown, undefined, suspended, pure, get_cursor_id,
}
use silkoroutine.Ethdb.Session.Any.{continue-eq-value}
use silkoroutine.Ethdb.TableMap.{TableMap, find}
use silkoroutine.Ethdb.Interface.{Cursor, Transaction}
use silkoroutine.Ethdb.Interface.Remote.{
  Sessions, remote_cursor, remote_transaction, cursor_within, transaction_within, within,
  remote_database,
}
use silkoroutine.Ethdb.Interface.Remote
use silkoroutine.Ethdb.Interface.Closing.{ClosesCursors, after}
use silkoroutine.Ethdb.Interface.Client.{ClientCall, Got, run_client, close-run_client}
use silkoroutine.Ethdb.RemoteTransaction
use silkoroutine.Ethdb.RemoteTransaction.Sharing.{Given, cursor_for-Given, ne_cons}
use silkoroutine.Ethdb.RemoteTransaction.Closing.{IsClosed, close-IsClosed}
use silkoroutine.Ethdb.Interface.Held.{IsHeld, use-IsHeld, cursor_for-IsHeld}

abbrev value_or : {A : Type 0} → A → Result A → A
value_or a (value b) = b
value_or a _ = a

same_value :
    {S A : Type 0} (a b : A) (s t : S)
    → ◌≡◌ {A = Result A × S} (value a, s) (value b, t)
    → (a ≡ b) × (s ≡ t)
same_value a b s t e = (ap (λ x. value_or a x.0) e, ap (λ x. x.1) e)

-- What a coroutine of the transaction `i` did that returned.
record Returned {A : Type 0} (i : ℕ) (m : Routine Session A) (s t : Sessions) (x : A) : Type 0 where
  before : Session
  after_it : Session
  there : get_elem? s.begun i ≡ some before
  ran : m before ≡ (value x, after_it)
  kept : t ≡ record s { begun = set s.begun i after_it }

within-Returned :
    {A : Type 0} (i : ℕ) (m : Routine Session A) (s t : Sessions) (x : A)
    → within i m s ≡ (value x, t)
    → Returned i m s t x
unfolding within
within-Returned {A = A} i m s t x e = elim (Option-cases (get_elem? s.begun i)) [
  | inl missing ↦ cc (rw (missing, within) at e)
  | inr (u, there) ↦ go u there (m u) refl (rw (there, within) at e)
]
  where
    go :
        (u : Session)
        → get_elem? s.begun i ≡ some u
        → (p : Result A × Session) → m u ≡ p
        → ◌≡◌ {A = Result A × Sessions} (p.0, record s { begun = set s.begun i p.1 }) (value x, t)
        → Returned i m s t x
    go u there (value y, v) q h =
        let (same, kept) = same_value y x _ t h in
        record {
          before = u;
          after_it = v;
          there = there;
          ran = q ∙ ap (λ z. (value z, v)) same;
          kept = sym kept;
        }
    go u there (thrown z, v) q h = cc h
    go u there (undefined, v) q h = cc h
    go u there (suspended, v) q h = cc h

find-All :
    (P : ℕ → Type 0) (k : Bytes) (a : ℕ) (m : TableMap ℕ)
    → find k m ≡ some a
    → All (λ (e : Bytes × ℕ). P e.1) m
    → P a
unfolding find
find-All P k a [] h p = cc
find-All P k a ((j, b) ∷ m) h p = ground (arith, find-All P k a m)

in_place :
    (i : ℕ) (s : Sessions) (u v : Session)
    → get_elem? s.begun i ≡ some u
    → get_elem? (set s.begun i v) i ≡ some v
in_place i s u v there = get_elem?-set_self s.begun i v (lt_of_get_elem? s.begun i u there)

remote-gives :
    (i : ℕ) (table : Bytes) (s t : Sessions) (c : Cursor Sessions)
    → (transaction_within i remote_transaction).cursor_for table s ≡ (value c, t)
    → IsHeld (transaction_within i remote_transaction) c t
remote-gives i table s t c e =
    let (c0, s0, ran, e0) =
      continue-eq-value (λ x. pure (cursor_within i x))
        (within i (remote_transaction.cursor_for table) s) e in
    let (cursor, same) = same_value (cursor_within i c0) c s0 t e0 in
    let r = within-Returned i (remote_transaction.cursor_for table) s s0 c0 ran in
    let (a, v, gave, e1) =
      continue-eq-value (λ x. pure (remote_cursor x)) (RemoteTransaction.cursor_for table r.before)
        r.ran in
    let (cursor0, same0) = same_value (remote_cursor a) c0 v r.after_it e1 in
    let now : t ≡ record s { begun = set s.begun i r.after_it } = sym same ∙ r.kept in
    let given : Given table (b'x' ∷ table) r.before (value a, v) =
      subst (Given table (b'x' ∷ table) r.before) gave
        (cursor_for-Given table (b'x' ∷ table) (ne_cons b'x' table) r.before) in
    record {
      number = i;
      self = a;
      table = table;
      session = r.after_it;
      transaction = refl;
      cursor = sym cursor ∙ ap (cursor_within i) (sym cursor0);
      there =
          ap (λ (x : Sessions). get_elem? x.begun i) now ∙ in_place i s r.before r.after_it r.there;
      found = subst (λ (x : Session). find table x.cursors ≡ some a) same0 given.0;
    }

closed_id :
    (i a : ℕ) (t : Sessions) (u : Session)
    → get_elem? t.begun i ≡ some u
    → IsClosed a u
    → within i (get_cursor_id a) t ≡ (value 0, t)
unfolding within
closed_id i a t u there closed =
    rw (there, within)
      (rw closed (ap (λ b. (value 0, record t { begun = b })) (set-get_elem? t.begun i u there)))

remote-closes :
    (i a : ℕ) (table : Bytes) (s t : Sessions) (u : Session)
    → get_elem? s.begun i ≡ some u
    → find table u.cursors ≡ some a
    → within i RemoteTransaction.close s ≡ (value tt, t)
    → within i (get_cursor_id a) t ≡ (value 0, t)
remote-closes i a table s t u there found e =
    let r = within-Returned i RemoteTransaction.close s t tt e in
    let known : get_elem? s.begun i ≡ some r.before = r.there in
    let same : u ≡ r.before = cc in
    let all = (close-IsClosed r.before r.after_it r.ran).0 in
    closed_id i a t r.after_it
      (ap (λ (x : Sessions). get_elem? x.begun i) r.kept ∙ in_place i s r.before r.after_it r.there)
      (find-All (λ b. IsClosed b r.after_it) table a r.before.cursors
        (subst (λ (x : Session). find table x.cursors ≡ some a) same found) all)

pub remote_database-ClosesCursors : ClosesCursors remote_database
unfolding Remote.begin
remote_database-ClosesCursors = record {
  Begun = λ tx. (i : ℕ) × (tx ≡ transaction_within i remote_transaction);
  Holds = IsHeld;
  begins = λ s t tx e. (length s.begun, sym (same_value _ tx _ t e).0);
  gives = λ tx table s t c (i, e) h.
      subst (λ (x : Transaction Sessions). x.cursor_for table s ≡ (value c, t) → IsHeld x c t)
        (sym e) (remote-gives i table s t c) h;
  holds = λ tx c c' s u h h'.
      subst (λ (x : Cursor Sessions). IsHeld tx c (after u x s)) (sym h'.cursor)
        (use-IsHeld tx c s h'.number h'.self u h);
  holds_cursor_for = λ tx c table s h.
      subst (λ (x : Transaction Sessions). IsHeld tx c (x.cursor_for table s).1) (sym h.transaction)
        (cursor_for-IsHeld tx c s h.number table h);
  closes = λ tx c s t h e.
      subst (λ (x : Cursor Sessions). x.cursor_id t ≡ (value 0, t)) (sym h.cursor)
        (remote-closes h.number h.self h.table s t h.session h.there h.found
          (subst (λ (x : Transaction Sessions). x.close s ≡ (value tt, t)) h.transaction e));
}

-- The transaction that `begin` gives.
abbrev pub begun_by : Sessions → Transaction Sessions
begun_by s = transaction_within (length s.begun) remote_transaction

-- A client that begins a transaction and makes these calls.
unfoldable pub client_of_remote : List ClientCall → Sessions → Got Sessions × Sessions
unfolding run_client
client_of_remote calls s = run_client (begun_by s) calls ([], (remote_database.begin s).1)

-- A client of the remote database begins a transaction, asks it for cursors by table, and makes any
-- calls of these cursors, in any order, whatever gRPC and the server do. It takes no cursor from
-- `cursor()`, which the transaction does not keep, and it closes the transaction only once, by its
-- last call: when that `close` returns, every cursor that the client got has the id 0, so is
-- closed.
pub close-client_of_remote :
    (calls : List ClientCall) (s v : Sessions)
    → (begun_by s).close (client_of_remote calls s).1 ≡ (value tt, v)
    → All (λ c. c.cursor_id v ≡ (value 0, v)) (client_of_remote calls s).0
unfolding Remote.begin client_of_remote
close-client_of_remote calls s v =
    close-run_client remote_database remote_database-ClosesCursors calls s
      (remote_database.begin s).1 v (begun_by s) refl
