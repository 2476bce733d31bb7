-- ===== src/Kv/Alone/Runs.antt =====
-- What holds of the operations while the bindings run, for every cast of an operation.
use silkoroutine.Common.{
  ℕ, Bool, true, false, List, [], ◌∷◌, ◌++◌, Option, none, some, ◌≡◌, refl, sym, ap, subst, All,
  All-append, get_elem?, set, get_elem?-set_self, lt_of_get_elem?, if◌then◌else◌,
}
use silkoroutine.Remote.{Pair}
use silkoroutine.Kv.Reactor
use silkoroutine.Kv.World.{
  World, Operation, Payload, id, pair, FuncType, open_cursor_func, seek_func, next_func,
  close_cursor_func, close_func, Command, return, throw, write_start, read_start, close_start, post,
  complete, print, stop, ok, fault,
}
use silkoroutine.Kv.Operations.{complete_operation, through, call_func}
use silkoroutine.Kv.Exec.{exec, call, run_posted}
use silkoroutine.Kv.Leaves.{Leaves}
use silkoroutine.Kv.Alone.Typed.{
  type_of, wanted, IsUpcallOf, Fits, FitsIn, Keeps, IsUpcallOf-map, Keeps-set, FitsIn-map,
  All-Fits-map,
}

-- The upcalls made, and the completions in the queue, have values of the types that are taken.
pub record IsTyped (w : World) : Type 0 where
  pub upcalls : All (IsUpcallOf w.operations) w.upcalls
  pub queued : All (Fits w.operations) w.posted

-- The same of the code that the reactor keeps.
pub record Inv (w : World) : Type 0 where
  pub typed : IsTyped w
  pub writes : (b : Bool) → FitsIn w.operations (Reactor.on_write_done w.reactor b)
  pub reads :
      (b : Bool) (p : Pair)
      → FitsIn w.operations (Reactor.on_read_done (record w.reactor { pair = p }) b)
  pub closes : (b : Bool) → FitsIn w.operations (Reactor.on_done w.reactor b)

-- Other operations, that keep what the old ones are.
pub grow :
    (os : List Operation) (w : World)
    → Keeps w.operations os
    → Inv w
    → Inv (record w { operations = os })
grow os w k v = record {
  typed = record {
    upcalls = IsUpcallOf-map w.upcalls w.operations os k v.typed.upcalls;
    queued = All-Fits-map w.posted w.operations os k v.typed.queued;
  };
  writes = λ b. FitsIn-map (Reactor.on_write_done w.reactor b) w.operations os k (v.writes b);
  reads = λ b p.
      FitsIn-map (Reactor.on_read_done (record w.reactor { pair = p }) b) w.operations os k
        (v.reads b p);
  closes = λ b. FitsIn-map (Reactor.on_done w.reactor b) w.operations os k (v.closes b);
}

upcall-Inv :
    (base : ℕ) (h : Operation) (p : Payload) (w : World)
    → get_elem? w.operations base ≡ some h
    → wanted h.func ≡ type_of p
    → Inv w
    → Inv (record w {
      operations = set w.operations base (record h { is_live = false });
      upcalls = w.upcalls ++ (h.handler, p) ∷ [];
    })
upcall-Inv base h p w there typed v =
    let os = set w.operations base (record h { is_live = false }) in
    let g = grow os w (Keeps-set w.operations base h there) v in
    let mine : IsUpcallOf os (h.handler, p) = record {
      address = base;
      operation = record h { is_live = false };
      there =
          get_elem?-set_self w.operations base (record h { is_live = false })
            (lt_of_get_elem? w.operations base h there);
      handler = refl;
      typed = typed;
    } in
    record {
      typed = record {
        upcalls =
            All-append (IsUpcallOf os) w.upcalls ((h.handler, p) ∷ []) g.typed.upcalls (mine, tt);
        queued = g.typed.queued;
      };
      writes = g.writes;
      reads = g.reads;
      closes = g.closes;
    }

-- A call with a value of the right type is never a cast to the wrong class.
call_func-Inv :
    (func : FuncType) (base : ℕ) (h : Operation) (p : Payload) (w : World)
    → h.func ≡ func
    → get_elem? w.operations base ≡ some h
    → wanted h.func ≡ type_of p
    → Inv w
    → (u : World) × (call_func func true base h p w ≡ ok u) × Inv u
unfolding call_func
call_func-Inv open_cursor_func base h (id n) w e there t v =
    (_, refl, upcall-Inv base h (id n) w there t v)
call_func-Inv close_cursor_func base h (id n) w e there t v =
    (_, refl, upcall-Inv base h (id n) w there t v)
call_func-Inv close_func base h (id n) w e there t v =
    (_, refl, upcall-Inv base h (id n) w there t v)
call_func-Inv seek_func base h (pair p) w e there t v =
    (_, refl, upcall-Inv base h (pair p) w there t v)
call_func-Inv next_func base h (pair p) w e there t v =
    (_, refl, upcall-Inv base h (pair p) w there t v)
call_func-Inv _ base h _ w e there t v = cc (ap wanted e)

complete-Inv :
    (op : ℕ) (p : Payload) (w : World)
    → Fits w.operations (complete op p)
    → Inv w
    → Leaves Inv (complete_operation op p w)
unfolding complete_operation through
complete-Inv op p w (h, there, t) v =
    subst (λ (o : Option Operation). Leaves Inv (through true op p o w)) (sym there)
      (by_live h.is_live)
  where
    by_live : (b : Bool) → Leaves Inv (if b then call_func h.func true op h p w else fault)
    by_live true =
        let (u, run, k) = call_func-Inv h.func op h p w refl there t v in
        subst (Leaves Inv) (sym run) k
    by_live false = tt

pub exec-Inv : (c : Command) (w : World) → Fits w.operations c → Inv w → Leaves Inv (exec c w)
unfolding exec
exec-Inv (complete op p) w f v = complete-Inv op p w f v
exec-Inv (print line k) w f v =
    exec-Inv k (record w { output = w.output ++ line ∷ [] }) f
      (record {
        typed = record { upcalls = v.typed.upcalls; queued = v.typed.queued };
        writes = v.writes;
        reads = v.reads;
        closes = v.closes;
      })
exec-Inv return w f v = v
exec-Inv (throw e) w f v = v
exec-Inv (write_start m k) w f v = record {
  typed = record { upcalls = v.typed.upcalls; queued = v.typed.queued };
  writes = f;
  reads = v.reads;
  closes = v.closes;
}
exec-Inv (read_start k) w f v = record {
  typed = record { upcalls = v.typed.upcalls; queued = v.typed.queued };
  writes = v.writes;
  reads = f;
  closes = v.closes;
}
exec-Inv (close_start k) w f v = record {
  typed = record { upcalls = v.typed.upcalls; queued = v.typed.queued };
  writes = v.writes;
  reads = v.reads;
  closes = f;
}
exec-Inv (post c) w f v = record {
  typed = record {
    upcalls = v.typed.upcalls;
    queued = All-append (Fits w.operations) w.posted (c ∷ []) v.typed.queued (f, tt);
  };
  writes = v.writes;
  reads = v.reads;
  closes = v.closes;
}
exec-Inv stop w f v = record {
  typed = record { upcalls = v.typed.upcalls; queued = v.typed.queued };
  writes = v.writes;
  reads = v.reads;
  closes = v.closes;
}

pub call-Inv :
    (c : Option Command) (w : World) → FitsIn w.operations c → Inv w → Leaves Inv (call c w)
call-Inv none w f v = v
call-Inv (some c) w f v = exec-Inv c w f v

pub run_posted-Inv :
    (cs : List Command) (w : World) → w.posted ≡ cs → Inv w → Leaves Inv (run_posted cs w)
run_posted-Inv [] w e v = v
run_posted-Inv (c ∷ cs) w e v =
    let q : All (Fits w.operations) (c ∷ cs) = subst (All (Fits w.operations)) e v.typed.queued in
    exec-Inv c (record w { posted = cs }) q.0
      (record {
        typed = record { upcalls = v.typed.upcalls; queued = q.1 };
        writes = v.writes;
        reads = v.reads;
        closes = v.closes;
      })
