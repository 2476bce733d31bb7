-- ===== src/Kv/Overlap.antt =====
-- A second request on a reactor, started before the first one has ended: the members
-- `write_completed_` and `read_completed_` hold one callback each.
pub mod Second
use silkoroutine.Common.{ℕ, Bool, true, false, List, ◌≢◌, refl, if◌then◌else◌, not}
use silkoroutine.Kv.Reactor
use silkoroutine.Kv.World.{Error, Command, throw, new_world}
use silkoroutine.Kv.Exec.{Event, drive, ◌>>=◌}
use silkoroutine.Kv.Awaitables.{Request, async_close, initiate}
use silkoroutine.Kv.Leaves.{Leaves, Leaves-bind, Leaves-weaken}
use silkoroutine.Kv.Overlap.Second.{OnlySecond, Lost, Inv, drive-Inv}

unless_bad :
    (e : Error) (c : Command) (b : Bool) → OnlySecond c → OnlySecond (if not b then throw e else c)
unless_bad e c true h = h
unless_bad e c false h = tt

two_started :
    (r1 r2 : Request) (h1 h2 : ℕ)
    → r1 ≢ async_close
    → r2 ≢ async_close
    → Leaves (Inv h1 h2) (initiate r1 h1 new_world >>= initiate r2 h2)
unfolding initiate
two_started async_close r2 h1 h2 n1 n2 = absurd (n1 refl)
two_started _ async_close h1 h2 n1 n2 = absurd (n2 refl)
two_started _ _ h1 h2 n1 n2 = record {
  lost = record {
    first = _;
    second = _;
    both = refl;
    first_waits = refl;
    first_lives = refl;
    second_is = refl;
    only_second = tt;
  };
  writes = λ b. unless_bad _ _ b (λ b' p. unless_bad _ _ b' refl);
  reads = λ b p. tt;
  closes = λ b. tt;
  posted = tt;
}

-- Where a request is started on a new reactor before the one in front of it had its write reported,
-- and none of the two is a close: whatever gRPC and the context do then, up to undefined behaviour,
-- the handler of the first request is never called and its operation is never freed. Every upcall
-- is one of the second request's handler.
pub overlap_loses_first :
    (r1 r2 : Request) (h1 h2 : ℕ) (es : List Event)
    → r1 ≢ async_close
    → r2 ≢ async_close
    → Leaves
        (λ w. Lost h1 h2 w.operations w.upcalls)
        (initiate r1 h1 new_world >>= initiate r2 h2 >>= drive es)
overlap_loses_first r1 r2 h1 h2 es n1 n2 =
    Leaves-weaken (Inv h1 h2) (λ w. Lost h1 h2 w.operations w.upcalls)
      (initiate r1 h1 new_world >>= initiate r2 h2 >>= drive es) (λ w v. v.lost)
      (Leaves-bind (Inv h1 h2) (initiate r1 h1 new_world >>= initiate r2 h2) (drive es)
        (two_started r1 r2 h1 h2 n1 n2) (drive-Inv h1 h2 es))
