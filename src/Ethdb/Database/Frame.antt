-- ===== src/Ethdb/Database/Frame.antt =====
-- The code of the bindings adds to the queue, and does not look at it.
use silkoroutine.Common.{
  ℕ, Bool, true, false, List, [], ◌∷◌, ◌++◌, Option, none, some, ◌≡◌, refl, ap, append_assoc,
  get_elem?, if◌then◌else◌,
}
use silkoroutine.Remote.{Pair}
use silkoroutine.Kv.Reactor
use silkoroutine.Kv.World.{
  World, Operation, Payload, id, pair, Command, return, throw, write_start, read_start, close_start,
  post, complete, print, stop, FuncType, open_cursor_func, seek_func, next_func, close_cursor_func,
  close_func, Outcome, ok, raised, fault,
}
use silkoroutine.Kv.Operations.{complete_operation, through, call_func}
use silkoroutine.Kv.Exec.{write_done, read_done, done, deliver, exec, call}
use silkoroutine.Kv.Awaitables.{Request, async_close, initiate}

abbrev pub behind : List Command → World → World
behind q w = record w { posted = q ++ w.posted }

abbrev pub behind_all : List Command → Outcome World → Outcome World
behind_all q (ok w) = ok (behind q w)
behind_all q (raised e w) = raised e (behind q w)
behind_all q fault = fault

-- The run of `f` behind the queue `q` leaves `q` in front.
abbrev pub IsFrame : (World → Outcome World) → Type 0
IsFrame f = (q : List Command) (w : World) → f (behind q w) ≡ behind_all q (f w)

call_func-IsFrame :
    (func : FuncType) (op : ℕ) (h : Operation) (p : Payload) → IsFrame (call_func func true op h p)
unfolding call_func
call_func-IsFrame open_cursor_func op h (id n) q w = refl
call_func-IsFrame seek_func op h (pair p) q w = refl
call_func-IsFrame next_func op h (pair p) q w = refl
call_func-IsFrame close_cursor_func op h (id n) q w = refl
call_func-IsFrame close_func op h (id n) q w = refl
call_func-IsFrame _ op h _ q w = refl

through-IsFrame : (op : ℕ) (p : Payload) (o : Option Operation) → IsFrame (through true op p o)
unfolding through
through-IsFrame op p none q w = refl
through-IsFrame op p (some h) q w = go h.is_live
  where
    go :
        (b : Bool)
        → (if b then call_func h.func true op h p (behind q w) else fault)
          ≡ behind_all q (if b then call_func h.func true op h p w else fault)
    go true = call_func-IsFrame h.func op h p q w
    go false = refl

pub exec-IsFrame : (c : Command) → IsFrame (exec c)
unfolding exec complete_operation
exec-IsFrame return q w = refl
exec-IsFrame (throw e) q w = refl
exec-IsFrame (write_start m k) q w = refl
exec-IsFrame (read_start k) q w = refl
exec-IsFrame (close_start k) q w = refl
exec-IsFrame (post c) q w =
    ap (λ (l : List Command). ok (record w { posted = l })) (append_assoc q w.posted (c ∷ []))
exec-IsFrame (complete op p) q w = through-IsFrame op p (get_elem? w.operations op) q w
exec-IsFrame (print line k) q w = exec-IsFrame k q (record w { output = w.output ++ line ∷ [] })
exec-IsFrame stop q w = refl

call-IsFrame : (c : Option Command) → IsFrame (call c)
call-IsFrame none q w = refl
call-IsFrame (some c) q w = exec-IsFrame c q w

pub initiate-IsFrame : (r : Request) (h : ℕ) → IsFrame (initiate r h)
unfolding initiate
initiate-IsFrame async_close h q w = refl
initiate-IsFrame _ h q w = refl

pub write_done-IsFrame : (b : Bool) → IsFrame (deliver (write_done b))
unfolding deliver
write_done-IsFrame b q w = call-IsFrame (Reactor.on_write_done w.reactor b) q w

pub read_done-IsFrame : (b : Bool) (p : Pair) → IsFrame (deliver (read_done b p))
unfolding deliver
read_done-IsFrame b p q w =
    let r = Reactor.received w.reactor b p in
    call-IsFrame (Reactor.on_read_done r b) q (record w { reactor = r })

pub done-IsFrame : (b : Bool) → IsFrame (deliver (done b))
unfolding deliver
done-IsFrame b q w = call-IsFrame (Reactor.on_done w.reactor b) q w
