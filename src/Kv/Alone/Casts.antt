-- ===== src/Kv/Alone/Casts.antt =====
-- Every cast of an operation is to its own class.
use silkoroutine.Common.{
  ℕ, Bool, true, false, List, [], ◌∷◌, ◌++◌, refl, get_elem?-append_last, not, if◌then◌else◌,
}
use silkoroutine.Kv.Reactor
use silkoroutine.Kv.World.{World, Operation, Command, throw, new_world, Error}
use silkoroutine.Kv.Exec.{write_done, read_done, done, run_one, deliver}
use silkoroutine.Kv.Awaitables.{Request, async_close, initiate}
use silkoroutine.Kv.Leaves.{Leaves, Leaves-bind, Leaves-weaken}
use silkoroutine.Kv.Alone.{OwnEvent, own_start, own, deliver_own, alone}
use silkoroutine.Kv.Alone.Typed.{Fits, Keeps-append}
use silkoroutine.Kv.Alone.Runs.{IsTyped, Inv, grow, call-Inv, run_posted-Inv}

unless_bad :
    (os : List Operation) (e : Error) (c : Command) (b : Bool)
    → Fits os c
    → Fits os (if not b then throw e else c)
unless_bad os e c true f = f
unless_bad os e c false f = tt

initiate-Inv : (r : Request) (h : ℕ) (w : World) → Inv w → Leaves Inv (initiate r h w)
unfolding initiate
initiate-Inv async_close h w v =
    let g = grow (w.operations ++ _ ∷ []) w (Keeps-append w.operations _) v in
    record {
      typed = record { upcalls = g.typed.upcalls; queued = g.typed.queued };
      writes = g.writes;
      reads = g.reads;
      closes = λ b. unless_bad _ _ _ b (_, get_elem?-append_last w.operations _, refl);
    }
initiate-Inv _ h w v =
    let g = grow (w.operations ++ _ ∷ []) w (Keeps-append w.operations _) v in
    record {
      typed = record { upcalls = g.typed.upcalls; queued = g.typed.queued };
      writes = λ b.
          unless_bad _ _ _ b
            (λ b' p. unless_bad _ _ _ b' (_, get_elem?-append_last w.operations _, refl));
      reads = g.reads;
      closes = g.closes;
    }

deliver_own-Inv : (o : OwnEvent) (w : World) → Inv w → Leaves Inv (deliver_own o w)
unfolding deliver_own deliver
deliver_own-Inv (own_start r h) w v = initiate-Inv r h w v
deliver_own-Inv (own (write_done b)) w v =
    call-Inv (Reactor.on_write_done w.reactor b) w (v.writes b) v
deliver_own-Inv (own (read_done b p)) w v =
    let r = Reactor.received w.reactor b p in
    call-Inv (Reactor.on_read_done r b) (record w { reactor = r }) (v.reads b r.pair)
      (record {
        typed = record { upcalls = v.typed.upcalls; queued = v.typed.queued };
        writes = v.writes;
        reads = v.reads;
        closes = v.closes;
      })
deliver_own-Inv (own (done b)) w v = call-Inv (Reactor.on_done w.reactor b) w (v.closes b) v
deliver_own-Inv (own run_one) w v = run_posted-Inv w.posted w refl v

alone-Inv : (os : List OwnEvent) (w : World) → Inv w → Leaves Inv (alone os w)
unfolding alone
alone-Inv [] w v = v
alone-Inv (o ∷ os) w v =
    Leaves-bind Inv (deliver_own o w) (alone os) (deliver_own-Inv o w v) (alone-Inv os)

-- Whatever happens to the bindings of a transaction, up to undefined behaviour: every call of a
-- handler is that of an operation that was started with the handler, and its value has the type
-- that the operation's class takes, a cursor's id or a pair. Each completion in the queue is of an
-- operation that was made, with a value of its type, so that no cast is to the wrong class.
pub alone-IsTyped : (os : List OwnEvent) → Leaves IsTyped (alone os new_world)
alone-IsTyped os =
    Leaves-weaken Inv IsTyped (alone os new_world) (λ w v. v.typed)
      (alone-Inv os new_world (record {
        typed = record { upcalls = tt; queued = tt };
        writes = λ b. tt;
        reads = λ b p. tt;
        closes = λ b. tt;
      }))
