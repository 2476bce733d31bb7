-- ===== src/Cmd/KvSeekCoroutines/Within.antt =====
-- The coroutine of the program over one transaction of the remote database, without the database.
use silkoroutine.Common.{ℕ, Bytes, List, [], ◌∷◌, ◌≡◌, refl}
use silkoroutine.Util.{KeyValue}
use silkoroutine.Kv.Exec.{Event}
use silkoroutine.Ethdb.Session.{
  Session, Coroutine, Routine, Result, value, thrown, undefined, suspended, pure, continue, begin,
  get_cursor_id, ◌>>=◌, ◌>>◌,
}
use silkoroutine.Ethdb.RemoteCursor.{seek_key}
use silkoroutine.Ethdb.RemoteTransaction
use silkoroutine.Ethdb.RemoteTransaction.{cursor_for}
use silkoroutine.Ethdb.Interface.{Cursor}
use silkoroutine.Ethdb.Interface.Remote
use silkoroutine.Ethdb.Interface.Remote.{
  Sessions, remote_database, remote_cursor, cursor_within, within,
}
use silkoroutine.Cmd.KvSeekCoroutines.{kv_seek, before_begin}

abbrev pub with_cursor : Bytes → ℕ → Coroutine (ℕ × KeyValue)
with_cursor key self = do
  cursor_id ← get_cursor_id self
  kv_pair ← seek_key self key
  RemoteTransaction.close
  pure (cursor_id, kv_pair)

abbrev pub in_session : Bytes → Bytes → Coroutine (ℕ × KeyValue)
in_session table key = do self ← cursor_for table; with_cursor key self

-- One transaction was begun.
abbrev pub only : {A : Type 0} → Result A × Session → Result A × Sessions
only x = (x.0, record { begun = x.1 ∷ []; to_come = [] })

continue-only :
    {A B : Type 0}
    → (f : A → Coroutine B) (g : A → Routine Sessions B)
    → ((a : A) (t : Session) → g a (record { begun = t ∷ []; to_come = [] }) ≡ only (f a t))
    → (x : Result A × Session) → continue g (only x) ≡ only (continue f x)
continue-only f g h (value a, t) = h a t
continue-only f g h (thrown e, t) = refl
continue-only f g h (undefined, t) = refl
continue-only f g h (suspended, t) = refl

continue-cursor :
    {B : Type 0}
    → (f : ℕ → Coroutine B) (g : Cursor Sessions → Routine Sessions B)
    → ((a : ℕ) (t : Session)
        → g (cursor_within 0 (remote_cursor a)) (record { begun = t ∷ []; to_come = [] })
          ≡ only (f a t))
    → (x : Result ℕ × Session)
    → continue g (
        continue
          (λ c. pure (cursor_within 0 c))
          (only (continue (λ self. pure (remote_cursor self)) x)))
      ≡ only (continue f x)
continue-cursor f g h (value a, t) = h a t
continue-cursor f g h (thrown e, t) = refl
continue-cursor f g h (undefined, t) = refl
continue-cursor f g h (suspended, t) = refl

pub kv_seek-in_session :
    (table key : Bytes) (events : List (List Event))
    → kv_seek remote_database table key (before_begin events)
      ≡ only (in_session table key (begin events))
unfolding kv_seek Remote.begin within
kv_seek-in_session table key events =
    continue-cursor (with_cursor key) _
      (λ a t.
        continue-only (λ n. seek_key a key >>= λ kv. RemoteTransaction.close >> pure (n, kv)) _
          (λ n u.
            continue-only (λ kv. RemoteTransaction.close >> pure (n, kv)) _
              (λ kv v.
                continue-only (λ _. pure (n, kv)) _ (λ _ w. refl) (RemoteTransaction.close v))
              (seek_key a key u))
          (get_cursor_id a t))
      (cursor_for table (begin events))
