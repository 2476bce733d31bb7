-- ===== src/Kv/Protocol/Handlers.antt =====
-- Which handlers have been called.
use silkoroutine.Common.{ℕ, Bool, List, [], ◌∷◌, ◌++◌, ◌≡◌, refl, sym, ◌∙◌, append-nil}
use mathlib.Core.List.{map-append}
use silkoroutine.Remote.{Pair}
use silkoroutine.Kv.World.{World, new_world}
use silkoroutine.Kv.Exec.{drive, ◌>>=◌}
use silkoroutine.Kv.Awaitables.{Request, async_close, initiate}
use silkoroutine.Kv.Exchange.{Returns}
use silkoroutine.Kv.Protocol.{
  Phase, idle, writing, reading, queued, Reach, called, handlers, IsSettled, before_queued,
  before_reading, Inv,
}
use silkoroutine.Kv.Protocol.Invariant.{Returns-ok, Reach-Inv, new_world-Inv}

-- The handler that was not called yet.
abbrev pub waiting : Phase → List ℕ
waiting idle = []
waiting (writing r h) = h ∷ []
waiting (reading r h) = h ∷ []
waiting (queued r h b p) = h ∷ []

record Outstanding (h : ℕ) (v w : World) : Type 0 where
  handlers_more : handlers w ≡ handlers v ++ h ∷ []
  called_same : called w ≡ called v

initiate-Outstanding :
    (r : Request) (h : ℕ) (v : World) → Returns (Outstanding h v) (initiate r h v)
unfolding initiate
initiate-Outstanding async_close h v = record {
  handlers_more = simp map-append;
  called_same = refl;
}
initiate-Outstanding _ h v = record { handlers_more = simp map-append; called_same = refl }

reading-Outstanding :
    (r : Request) (h : ℕ) (v : World)
    → Returns (Outstanding h v) (initiate r h v >>= drive (before_reading r))
unfolding initiate drive
reading-Outstanding async_close h v = record { handlers_more = simp map-append; called_same = refl }
reading-Outstanding _ h v = record { handlers_more = simp map-append; called_same = refl }

queued-Outstanding :
    (r : Request) (h : ℕ) (v : World) (b : Bool) (p : Pair)
    → Returns (Outstanding h v) (initiate r h v >>= drive (before_queued r b p))
unfolding initiate drive
queued-Outstanding async_close h v b p = record {
  handlers_more = simp map-append;
  called_same = refl;
}
queued-Outstanding _ h v b p = record { handlers_more = simp map-append; called_same = refl }

Outstanding-called :
    (h : ℕ) (v w : World) → IsSettled v → Outstanding h v w → handlers w ≡ called w ++ h ∷ []
Outstanding-called h v w s o = rw (o.handlers_more, o.called_same, s.called_all)

Inv-called : (s : Phase × World) → Inv s → handlers s.1 ≡ called s.1 ++ waiting s.0
Inv-called (idle, w) i = i.called_all ∙ sym (append-nil (called w))
Inv-called (writing r h, w) (v, n, s, e) =
    Outstanding-called h v w s (Returns-ok (Outstanding h v) _ w e (initiate-Outstanding r h v))
Inv-called (reading r h, w) (v, s, e) =
    Outstanding-called h v w s (Returns-ok (Outstanding h v) _ w e (reading-Outstanding r h v))
Inv-called (queued r h b p, w) (v, s, e) =
    Outstanding-called h v w s (Returns-ok (Outstanding h v) _ w e (queued-Outstanding r h v b p))

-- In every state that can be reached from a new reactor, the handlers of the requests made so far
-- were called once each and in the order of the requests, but for that of the request under way.
pub called_once :
    (ph : Phase) (w : World) → Reach (idle, new_world) (ph, w) → handlers w ≡ called w ++ waiting ph
called_once ph w r = Inv-called (ph, w) (Reach-Inv new_world-Inv r)
