-- ===== src/Ethdb/Service/Exchanges.antt =====
-- Exchanges with the service as the events that bring them about.
use silkoroutine.Common.{
  ℕ, Bytes, List, [], ◌∷◌, ◌++◌, ◌≡◌, refl, sym, ap, subst, append-nil, append_assoc,
}
use silkoroutine.Remote.{Pair}
use silkoroutine.Kv.Reactor.{GrpcCall}
use silkoroutine.Kv.Exec.{Event}
use silkoroutine.Kv.Awaitables.{Request}
use silkoroutine.Kv.Exchange.{answered, calls_of}
use silkoroutine.Ethdb.Session.{Session, Result, value}
use silkoroutine.Ethdb.Session.Answered.{Spoke}
use silkoroutine.Ethdb.RemoteTransaction.{cursor_for}
use silkoroutine.Ethdb.RemoteTransaction.Invariant.{IsValid, cursor_for-IsValid}
use silkoroutine.Ethdb.Service.{Exchanges}

-- The events of a list of exchanges, one for each `co_await`, and the calls that they are.
abbrev pub script : Exchanges → List (List Event)
script [] = []
script ((r, p) ∷ es) = answered r p ∷ script es

abbrev pub calls_in : Exchanges → List GrpcCall
calls_in [] = []
calls_in ((r, p) ∷ es) = calls_of r ++ calls_in es

pub script-append : (es fs : Exchanges) → script (es ++ fs) ≡ script es ++ script fs
script-append [] fs = refl
script-append ((r, p) ∷ es) fs = ap (◌∷◌ (answered r p)) (script-append es fs)

pub calls_in-append : (es fs : Exchanges) → calls_in (es ++ fs) ≡ calls_in es ++ calls_in fs
calls_in-append [] fs = refl
calls_in-append ((r, p) ∷ es) fs = simp (calls_in-append es fs, append_assoc)

-- From `s` to `t` just these exchanges were made, and the events `rest` are still to come.
pub record Ran (es : Exchanges) (rest : List (List Event)) (s t : Session) : Type 0 where
  pub calls : t.world.reactor.calls ≡ s.world.reactor.calls ++ calls_in es
  pub events : t.events ≡ rest

pub Ran-refl : (s : Session) → Ran [] s.events s s
Ran-refl s = record { calls = sym (append-nil _); events = refl }

pub Ran-trans :
    {es fs : Exchanges} {mid rest : List (List Event)} {s t u : Session}
    → Ran es mid s t
    → Ran fs rest t u
    → Ran (es ++ fs) rest s u
Ran-trans {es} {fs} p q = record {
  calls = simp (q.calls, p.calls, calls_in-append es fs, append_assoc) refl;
  events = q.events;
}

pub Ran-one :
    {r : Request} {p : Pair} {rest : List (List Event)} {s t : Session}
    → Spoke (calls_of r) rest s t
    → Ran ((r, p) ∷ []) rest s t
Ran-one {r} k = record { calls = simp (k.calls, append-nil) refl; events = k.events }

pub cursor_for-result :
    {c : ℕ} (table : Bytes) (s t : Session)
    → cursor_for table s ≡ (value c, t)
    → IsValid s
    → IsValid t
cursor_for-result table s t run v =
    subst (λ (r : Result ℕ × Session). IsValid r.1) run (cursor_for-IsValid table s v)
