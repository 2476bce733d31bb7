-- ===== src/Kv/Alone.antt =====
-- The bindings of one transaction under anything that can happen: its owner starts a request, also
-- while others are under way, gRPC reports to the reactor, or the context runs a handler.
pub mod Typed
pub mod Runs
pub mod Casts
use silkoroutine.Common.{ℕ, List, [], ◌∷◌, ◌++◌, ◌≡◌, refl}
use silkoroutine.Kv.World.{World, Outcome, ok, raised, fault}
use silkoroutine.Kv.Exec.{Event, deliver, ◌>>=◌}
use silkoroutine.Kv.Awaitables.{Request, initiate}

pub data OwnEvent : Type 0 where
  own_start : Request → ℕ → OwnEvent
  own : Event → OwnEvent

unfoldable pub deliver_own : OwnEvent → World → Outcome World
unfolding initiate deliver
deliver_own (own_start r h) = initiate r h
deliver_own (own e) = deliver e

-- The run of a transaction that has the context for itself.
unfoldable pub alone : List OwnEvent → World → Outcome World
unfolding deliver_own
alone [] w = ok w
alone (o ∷ os) w = deliver_own o w >>= alone os

pub alone-append :
    (xs ys : List OwnEvent) (w : World) → alone (xs ++ ys) w ≡ (alone xs w >>= alone ys)
unfolding alone
alone-append [] ys w = refl
alone-append (x ∷ xs) ys w = go (deliver_own x w) (alone (xs ++ ys)) (alone xs) (alone-append xs ys)
  where
    go :
        (m : Outcome World) (f g : World → Outcome World)
        → ((u : World) → f u ≡ (g u >>= alone ys))
        → (m >>= f) ≡ ((m >>= g) >>= alone ys)
    go (ok u) f g h = h u
    go (raised e u) f g h = refl
    go fault f g h = refl
