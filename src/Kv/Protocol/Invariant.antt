-- ===== src/Kv/Protocol/Invariant.antt =====
-- Every step keeps the invariant: a request under way was started in a settled state.
use silkoroutine.Common.{ℕ, Bool, true, false, List, [], ◌∷◌, ◌++◌, ◌≡◌, subst, ◌≢◌, refl}
use mathlib.Core.List.{map-append}
use silkoroutine.Remote.{Pair}
use silkoroutine.Kv.World.{World, Outcome, ok, raised, fault, new_world, Error}
use silkoroutine.Kv.Exec.{Event, write_done, run_one, deliver, drive, ◌>>=◌}
use silkoroutine.Kv.Awaitables.{Request, async_seek, async_close, initiate}
use silkoroutine.Kv.Exchange.{
  answered, calls_of, unread, Answered, Returns, Raises, exchange, exchange_fails, read_error,
  Abandoned,
}
use silkoroutine.Kv.Protocol.{
  Phase, idle, Step, start, wrote, answer, ran, Reach, here, next, started, report, IsSettled,
  before_queued, before_reading, Inv,
}

Answered-IsSettled :
    (r : Request) (h : ℕ) (p : Pair) (w w' : World)
    → IsSettled w
    → Answered r h p w w'
    → IsSettled w'
Answered-IsSettled r h p w w' s a = record {
  posted = a.posted;
  called_all = rw (a.operations, a.upcalls) (simp (map-append, s.called_all));
}

pub ok-injective : (a b : World) → ok a ≡ ok b → a ≡ b
ok-injective a b e = cc

module _ (e : Event) (w w' : World) (d : deliver e w ≡ ok w') where
  after_ok :
      (f g : World → Outcome World) (m : Outcome World)
      → ((a : World) → f a ≡ ok w → g a ≡ ok w')
      → (m >>= f) ≡ ok w
      → (m >>= g) ≡ ok w'
  after_ok f g (ok a) k h = k a h
  after_ok f g (raised x a) k h = cc
  after_ok f g fault k h = cc

  drive_snoc : (es : List Event) (a : World) → drive es a ≡ ok w → drive (es ++ e ∷ []) a ≡ ok w'
  unfolding drive
  drive_snoc [] a h = let same : a ≡ w = ok-injective a w h in rw (same, d) refl
  drive_snoc (x ∷ es) a h =
      after_ok (drive es) (drive (es ++ e ∷ [])) (deliver x a) (drive_snoc es) h

  bind-drive_snoc :
      (es : List Event) (m : Outcome World)
      → (m >>= drive es) ≡ ok w
      → (m >>= drive (es ++ e ∷ [])) ≡ ok w'
  bind-drive_snoc es m h = after_ok (drive es) (drive (es ++ e ∷ [])) m (drive_snoc es) h

pub Returns-ok : (P : World → Type 0) (m : Outcome World) (w : World) → m ≡ ok w → Returns P m → P w
Returns-ok P (ok a) w e r = subst P (ok-injective a w e) r
Returns-ok P (raised x a) w e r = absurd r
Returns-ok P fault w e r = absurd r

Raises-ne-ok :
    (x : Error) (P : World → Type 0) (m : Outcome World) (w : World) → Raises x P m → m ≡ ok w → ⊥
Raises-ne-ok x P (ok a) w r e = r
Raises-ne-ok x P (raised y a) w r e = cc
Raises-ne-ok x P fault w r e = r

queued_good : (r : Request) (p : Pair) → before_queued r true p ++ run_one ∷ [] ≡ answered r p
queued_good async_close p = refl
queued_good _ p = refl

queued_bad : (r : Request) (p : Pair) → before_queued r false p ++ run_one ∷ [] ≡ unread r p
queued_bad async_close p = refl
queued_bad _ p = refl

finish-IsSettled :
    (r : Request) (h : ℕ) (b : Bool) (p : Pair) (v w : World)
    → IsSettled v
    → (initiate r h v >>= drive (before_queued r b p ++ run_one ∷ [])) ≡ ok w
    → IsSettled w
finish-IsSettled r h true p v w s e =
    Answered-IsSettled r h p v w s
      (Returns-ok (Answered r h p v) _ w (rw (queued_good r p) at e) (exchange r h p v s.posted))
finish-IsSettled r h false p v w s e = absurd (
    Raises-ne-ok (read_error r) (Abandoned r h (calls_of r) v) _ w
      (exchange_fails r h p v s.posted).1 (rw (queued_bad r p) at e))

start_Inv :
    (r : Request) (h : ℕ) (w w' : World)
    → IsSettled w
    → initiate r h w ≡ ok w'
    → Inv (started r h, w')
unfolding drive
start_Inv async_close h w w' s e = (w, s, rw e)
start_Inv (async_seek n key) h w w' s e = (w, λ q. cc, s, e)
start_Inv _ h w w' s e = (w, λ q. cc, s, e)

wrote_Inv :
    (r : Request) (h : ℕ) (v w w' : World)
    → r ≢ async_close
    → initiate r h v ≡ ok w
    → deliver (write_done true) w ≡ ok w'
    → (initiate r h v >>= drive (before_reading r)) ≡ ok w'
unfolding drive
wrote_Inv async_close h v w w' n e d = absurd (n refl)
wrote_Inv _ h v w w' n e d = rw (e, d) refl

report_snoc :
    (r : Request) (b : Bool) (p : Pair)
    → before_reading r ++ report r b p ∷ [] ≡ before_queued r b p
report_snoc async_close b p = refl
report_snoc _ b p = refl

Step-Inv : {s t : Phase × World} → Step s t → Inv s → Inv t
Step-Inv (start {w} {w'} r h e) i = start_Inv r h w w' i e
Step-Inv (wrote {w} {w'} {r} {h} e) (v, n, s, q) = (v, s, wrote_Inv r h v w w' n q e)
Step-Inv (answer {w} {w'} {r} {h} b p e) (v, s, q) =
    (v, s, rw (report_snoc r b p) at (bind-drive_snoc (report r b p) w w' e (before_reading r) _ q))
Step-Inv (ran {w} {w'} {r} {h} {b} {p} e) (v, s, q) =
    finish-IsSettled r h b p v w' s (bind-drive_snoc run_one w w' e (before_queued r b p) _ q)

pub Reach-Inv : {s t : Phase × World} → Inv s → Reach s t → Inv t
Reach-Inv i here = i
Reach-Inv i (next r st) = Step-Inv st (Reach-Inv i r)

pub new_world-Inv : Inv (idle, new_world)
new_world-Inv = record { posted = refl; called_all = refl }
