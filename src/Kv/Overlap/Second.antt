-- ===== src/Kv/Overlap/Second.antt =====
-- What holds while only the second of two operations can be completed.
use silkoroutine.Common.{
  ℕ, Bool, true, false, List, [], ◌∷◌, ◌++◌, Option, none, some, ◌≡◌, refl, sym, ap, subst, All,
  All-append, Bool-cases, inl, inr, get_elem?, set,
}
use silkoroutine.Remote.{Pair}
use silkoroutine.Kv.Reactor
use silkoroutine.Kv.World.{
  World, Operation, Payload, id, pair, FuncType, open_cursor_func, seek_func, next_func,
  close_cursor_func, close_func, Command, return, throw, write_start, read_start, close_start, post,
  complete, print, stop,
}
use silkoroutine.Kv.Operations.{complete_operation, through, call_func}
use silkoroutine.Kv.Exec.{
  Event, write_done, read_done, done, run_one, deliver, drive, exec, call, run_posted,
}
use silkoroutine.Kv.Leaves.{Leaves, Leaves-bind}

-- The only operation that the code completes is the second one.
abbrev pub OnlySecond : Command → Type 0
OnlySecond return = Unit
OnlySecond (throw e) = Unit
OnlySecond (write_start m k) = (b : Bool) → OnlySecond (k b)
OnlySecond (read_start k) = (b : Bool) (p : Pair) → OnlySecond (k b p)
OnlySecond (close_start k) = (b : Bool) → OnlySecond (k b)
OnlySecond (post c) = OnlySecond c
OnlySecond (complete op p) = op ≡ 1
OnlySecond (print line k) = OnlySecond k
OnlySecond stop = Unit

abbrev pub OnlyIn : Option Command → Type 0
OnlyIn none = Unit
OnlyIn (some c) = OnlySecond c

-- The first operation is still allocated, and only the handler of the second one was called.
pub record Lost (h1 h2 : ℕ) (operations : List Operation) (upcalls : List (ℕ × Payload))
    : Type 0 where
  pub first : Operation
  pub second : Operation
  pub both : operations ≡ first ∷ second ∷ []
  pub first_waits : first.handler ≡ h1
  pub first_lives : first.is_live ≡ true
  pub second_is : second.handler ≡ h2
  pub only_second : All (λ (u : ℕ × Payload). u.0 ≡ h2) upcalls

pub record Inv (h1 h2 : ℕ) (w : World) : Type 0 where
  pub lost : Lost h1 h2 w.operations w.upcalls
  pub writes : (b : Bool) → OnlyIn (Reactor.on_write_done w.reactor b)
  pub reads :
      (b : Bool) (p : Pair) → OnlyIn (Reactor.on_read_done (record w.reactor { pair = p }) b)
  pub closes : (b : Bool) → OnlyIn (Reactor.on_done w.reactor b)
  pub posted : All OnlySecond w.posted

module _ (h1 h2 : ℕ) where
  upcall-Inv :
      (p : Payload) (w : World)
      → Inv h1 h2 w
      → (l : Lost h1 h2 w.operations w.upcalls)
      → Inv h1 h2 (record w {
        operations = set w.operations 1 (record l.second { is_live = false });
        upcalls = w.upcalls ++ (l.second.handler, p) ∷ [];
      })
  upcall-Inv p w v l = record {
    lost = record {
      first = l.first;
      second = record l.second { is_live = false };
      both = rw (l.both) refl;
      first_waits = l.first_waits;
      first_lives = l.first_lives;
      second_is = l.second_is;
      only_second =
          All-append (λ (u : ℕ × Payload). u.0 ≡ h2) w.upcalls ((l.second.handler, p) ∷ [])
            l.only_second (l.second_is, tt);
    };
    writes = v.writes;
    reads = v.reads;
    closes = v.closes;
    posted = v.posted;
  }

  call_func-Inv :
      (func : FuncType) (p : Payload) (w : World)
      → Inv h1 h2 w
      → (l : Lost h1 h2 w.operations w.upcalls)
      → Leaves (Inv h1 h2) (call_func func true 1 l.second p w)
  unfolding call_func
  call_func-Inv open_cursor_func (id n) w v l = upcall-Inv (id n) w v l
  call_func-Inv close_cursor_func (id n) w v l = upcall-Inv (id n) w v l
  call_func-Inv close_func (id n) w v l = upcall-Inv (id n) w v l
  call_func-Inv seek_func (pair p) w v l = upcall-Inv (pair p) w v l
  call_func-Inv next_func (pair p) w v l = upcall-Inv (pair p) w v l
  call_func-Inv _ _ w v l = tt

  complete-Inv :
      (p : Payload) (w : World) → Inv h1 h2 w → Leaves (Inv h1 h2) (complete_operation 1 p w)
  unfolding complete_operation through
  complete-Inv p w v =
      let l = v.lost in
      let held : get_elem? w.operations 1 ≡ some l.second =
        ap (λ (z : List Operation). get_elem? z 1) l.both in
      subst (λ (o : Option Operation). Leaves (Inv h1 h2) (through true 1 p o w)) (sym held)
        (elim (Bool-cases l.second.is_live) [
          | inl live ↦ simp live (call_func-Inv l.second.func p w v l)
          | inr gone ↦ simp gone tt
        ])

  exec-Inv : (c : Command) (w : World) → OnlySecond c → Inv h1 h2 w → Leaves (Inv h1 h2) (exec c w)
  unfolding exec
  exec-Inv return w o v = v
  exec-Inv (throw e) w o v = v
  exec-Inv (write_start m k) w o v = record {
    lost = v.lost;
    writes = o;
    reads = v.reads;
    closes = v.closes;
    posted = v.posted;
  }
  exec-Inv (read_start k) w o v = record {
    lost = v.lost;
    writes = v.writes;
    reads = o;
    closes = v.closes;
    posted = v.posted;
  }
  exec-Inv (close_start k) w o v = record {
    lost = v.lost;
    writes = v.writes;
    reads = v.reads;
    closes = o;
    posted = v.posted;
  }
  exec-Inv (post c) w o v = record {
    lost = v.lost;
    writes = v.writes;
    reads = v.reads;
    closes = v.closes;
    posted = All-append OnlySecond w.posted (c ∷ []) v.posted (o, tt);
  }
  exec-Inv (complete op p) w o v =
      subst (λ n. Leaves (Inv h1 h2) (complete_operation n p w)) (sym o) (complete-Inv p w v)
  exec-Inv (print line k) w o v =
      exec-Inv k (record w { output = w.output ++ line ∷ [] }) o
        (record {
          lost = v.lost;
          writes = v.writes;
          reads = v.reads;
          closes = v.closes;
          posted = v.posted;
        })
  exec-Inv stop w o v = record {
    lost = v.lost;
    writes = v.writes;
    reads = v.reads;
    closes = v.closes;
    posted = v.posted;
  }

  call-Inv :
      (c : Option Command) (w : World) → OnlyIn c → Inv h1 h2 w → Leaves (Inv h1 h2) (call c w)
  call-Inv none w o v = v
  call-Inv (some c) w o v = exec-Inv c w o v

  run_posted-Inv :
      (cs : List Command) (w : World)
      → All OnlySecond cs
      → Inv h1 h2 w
      → Leaves (Inv h1 h2) (run_posted cs w)
  run_posted-Inv [] w o v = v
  run_posted-Inv (c ∷ cs) w (o, os) v =
      exec-Inv c (record w { posted = cs }) o
        (record {
          lost = v.lost;
          writes = v.writes;
          reads = v.reads;
          closes = v.closes;
          posted = os;
        })

  deliver-Inv : (e : Event) (w : World) → Inv h1 h2 w → Leaves (Inv h1 h2) (deliver e w)
  unfolding deliver
  deliver-Inv (write_done b) w v = call-Inv (Reactor.on_write_done w.reactor b) w (v.writes b) v
  deliver-Inv (read_done b p) w v =
      let r = Reactor.received w.reactor b p in
      call-Inv (Reactor.on_read_done r b) (record w { reactor = r }) (v.reads b r.pair)
        (record {
          lost = v.lost;
          writes = v.writes;
          reads = v.reads;
          closes = v.closes;
          posted = v.posted;
        })
  deliver-Inv (done b) w v = call-Inv (Reactor.on_done w.reactor b) w (v.closes b) v
  deliver-Inv run_one w v = run_posted-Inv w.posted w v.posted v

  pub drive-Inv : (es : List Event) (w : World) → Inv h1 h2 w → Leaves (Inv h1 h2) (drive es w)
  unfolding drive
  drive-Inv [] w v = v
  drive-Inv (e ∷ es) w v =
      Leaves-bind (Inv h1 h2) (deliver e w) (drive es) (deliver-Inv e w v) (drive-Inv es)
