-- ===== src/Ethdb/Database/Isolation.antt =====
-- The transactions of a database do not see one another.
use silkoroutine.Common.{
  ℕ, true, false, List, [], ◌∷◌, ◌++◌, ◌≡◌, refl, sym, ap, ◌∙◌, ◌==◌, ==_iff, ltb, append-nil,
  Bool-cases, inl, inr, subst,
}
use silkoroutine.Kv.World.{World, Command, Outcome, ok, raised, fault}
use silkoroutine.Kv.Exec.{deliver, exec, ◌>>=◌}
use silkoroutine.Kv.Exec
use silkoroutine.Kv.Awaitables.{initiate}
use silkoroutine.Kv.Alone.{OwnEvent, own_start, own, deliver_own, alone, alone-append}
use silkoroutine.Ethdb.Database.{
  RemoteDatabase, new_database, keep, keep_all, act, if_begun, SharedEvent, begins, starts,
  write_done, read_done, done, run_one, run_first, deliver_shared, run,
}
use silkoroutine.Ethdb.Database.Queue.{
  commands_of, view, if_own, if_own_begun, first_own, share_of, onward, share, commands_of-append,
  commands_of-tagged, commands_of-tagged_other,
}
use silkoroutine.Ethdb.Database.Frame.{
  behind, behind_all, IsFrame, exec-IsFrame, initiate-IsFrame, write_done-IsFrame,
  read_done-IsFrame, done-IsFrame,
}

-- What a run of the database comes to, where `own i` is what it is for the transaction `i`: each
-- transaction comes to what it comes to alone. An exception, or undefined behaviour, is that of one
-- transaction alone.
abbrev pub Shows : (ℕ → List OwnEvent) → RemoteDatabase → Outcome RemoteDatabase → Type 0
Shows os d (ok d') = (i : ℕ) → alone (os i) (view i d) ≡ ok (view i d')
Shows os d (raised e d') = (i : ℕ) × (alone (os i) (view i d) ≡ raised e (view i d'))
Shows os d fault = (i : ℕ) × (alone (os i) (view i d) ≡ fault)

alone_one :
    (o : OwnEvent) (w : World) (m : Outcome World) → deliver_own o w ≡ m → alone (o ∷ []) w ≡ m
unfolding alone
alone_one o w (ok u) e = rw e refl
alone_one o w (raised x u) e = rw e refl
alone_one o w fault e = rw e refl

module _ (i : ℕ) (d : RemoteDatabase) where
  keep_own : (w : World) → view i (keep i d w) ≡ behind (commands_of i d.queue) w
  keep_own w =
      let self : (i == i) ≡ true = (==_iff i i).1 refl in
      simp (self, commands_of-append, commands_of-tagged) refl

  keep_other : (j : ℕ) (w : World) → (i == j) ≡ false → view j (keep i d w) ≡ view j d
  keep_other j w h =
      simp (h, commands_of-append, commands_of-tagged_other j i w.posted h, append-nil) refl

  if_own_self : (o : OwnEvent) → if_own i i o ≡ o ∷ []
  if_own_self o = let self : (i == i) ≡ true = (==_iff i i).1 refl in simp self refl

  if_own_other : (j : ℕ) (o : OwnEvent) → (i == j) ≡ false → if_own j i o ≡ []
  if_own_other j o other = simp other refl

  -- What was run for `i` on the database `d`, seen from the state `start` before it.
  kept-Shows :
      (start : RemoteDatabase) (o : OwnEvent) (m : Outcome World)
      → ((j : ℕ) → (i == j) ≡ false → view j start ≡ view j d)
      → deliver_own o (view i start) ≡ behind_all (commands_of i d.queue) m
      → Shows (λ j. if_own j i o) start (keep_all i d m)
  unfolding alone
  kept-Shows start o (ok w) others e = λ j. elim (Bool-cases (i == j)) [
    | inl same ↦
        subst (λ (k : ℕ). alone (if_own k i o) (view k start) ≡ ok (view k (keep i d w)))
          ((==_iff i j).0 same)
          (rw (if_own_self o) (alone_one o (view i start) _ e ∙ ap ok (sym (keep_own w))))
    | inr other ↦
        subst (λ (os : List OwnEvent). alone os (view j start) ≡ ok (view j (keep i d w)))
          (sym (if_own_other j o other)) (ap ok (others j other ∙ sym (keep_other j w other)))
  ]
  kept-Shows start o (raised x w) others e =
      (i, rw (if_own_self o) (alone_one o (view i start) _ e ∙ ap (raised x) (sym (keep_own w))))
  kept-Shows start o fault others e = (i, rw (if_own_self o) (alone_one o (view i start) _ e))

  -- A frame goes on in the same way behind the queue of the others.
  framed :
      (f : World → Outcome World)
      → IsFrame f
      → f (view i d)
        ≡ behind_all (commands_of i d.queue) (f (record (d.transactions i) { posted = [] }))
  framed f frame =
      let q = commands_of i d.queue in
      ap (λ (l : List Command). f (record (d.transactions i) { posted = l })) (sym (append-nil q))
      ∙ frame q (record (d.transactions i) { posted = [] })

  -- The run of `f` for the transaction `i` in the database, and alone.
  act-Shows :
      (f : World → Outcome World) (o : OwnEvent)
      → IsFrame f
      → ((w : World) → deliver_own o w ≡ f w)
      → Shows (λ j. if_own j i o) d (act i f d)
  unfolding act
  act-Shows f o frame same =
      kept-Shows d o (f (record (d.transactions i) { posted = [] })) (λ j other. refl)
        (same (view i d) ∙ framed f frame)

  nothing-Shows : Shows (λ j. []) d (ok d)
  unfolding alone
  nothing-Shows j = refl

  if_begun-Shows :
      (f : World → Outcome World) (o : OwnEvent)
      → IsFrame f
      → ((w : World) → deliver_own o w ≡ f w)
      → Shows (λ j. if_own_begun j i o d) d (if_begun i f d)
  if_begun-Shows f o frame same = elim (Bool-cases (ltb i d.begun)) [
    | inl old ↦ simp old (act-Shows f o frame same)
    | inr new ↦ simp new nothing-Shows
  ]

run_first-Shows :
    (q : List (ℕ × Command)) (d : RemoteDatabase)
    → d.queue ≡ q
    → Shows (λ j. first_own j q) d (run_first q d)
unfolding run_first act deliver_own deliver
run_first-Shows [] d e = nothing-Shows 0 d
run_first-Shows ((i, c) ∷ q) d e =
    let after : RemoteDatabase = record d { queue = q } in
    let self : (i == i) ≡ true = (==_iff i i).1 refl in
    kept-Shows i after d (own Exec.run_one) (exec c (record (d.transactions i) { posted = [] }))
      (λ j other. simp (e, other) refl) (simp (e, self) (framed i after (exec c) (exec-IsFrame c)))

deliver_shared-Shows :
    (e : SharedEvent) (d : RemoteDatabase) → Shows (λ j. share_of j e d) d (deliver_shared e d)
unfolding deliver_shared share_of deliver_own alone
deliver_shared-Shows begins d = λ j. refl
deliver_shared-Shows (starts i r h) d =
    if_begun-Shows i d (initiate r h) (own_start r h) (initiate-IsFrame r h) (λ w. refl)
deliver_shared-Shows (write_done i b) d =
    if_begun-Shows i d (deliver (Exec.write_done b)) (own (Exec.write_done b))
      (write_done-IsFrame b) (λ w. refl)
deliver_shared-Shows (read_done i b p) d =
    if_begun-Shows i d (deliver (Exec.read_done b p)) (own (Exec.read_done b p))
      (read_done-IsFrame b p) (λ w. refl)
deliver_shared-Shows (done i b) d =
    if_begun-Shows i d (deliver (Exec.done b)) (own (Exec.done b)) (done-IsFrame b) (λ w. refl)
deliver_shared-Shows run_one d = run_first-Shows d.queue d refl

-- One run after another.
join-Shows :
    (s t : ℕ → List OwnEvent) (d d' : RemoteDatabase) (o : Outcome RemoteDatabase)
    → Shows s d (ok d')
    → Shows t d' o
    → Shows (λ i. s i ++ t i) d o
join-Shows s t d d' (ok d'') h k = λ i.
    alone-append (s i) (t i) (view i d) ∙ ap (λ (m : Outcome World). m >>= alone (t i)) (h i) ∙ k i
join-Shows s t d d' (raised x d'') h (i, k) = (
  i,
  alone-append (s i) (t i) (view i d) ∙ ap (λ (m : Outcome World). m >>= alone (t i)) (h i) ∙ k,
)
join-Shows s t d d' fault h (i, k) = (
  i,
  alone-append (s i) (t i) (view i d) ∙ ap (λ (m : Outcome World). m >>= alone (t i)) (h i) ∙ k,
)

onward-Shows :
    (s : ℕ → List OwnEvent) (f : ℕ → RemoteDatabase → List OwnEvent)
    (g : RemoteDatabase → Outcome RemoteDatabase) (d : RemoteDatabase) (o : Outcome RemoteDatabase)
    → Shows s d o
    → ((d' : RemoteDatabase) → Shows (λ i. f i d') d' (g d'))
    → Shows (λ i. s i ++ onward (f i) o) d (o >>= g)
onward-Shows s f g d (ok d') h k = join-Shows s (λ i. f i d') d d' (g d') h (k d')
onward-Shows s f g d (raised x d') (i, h) k = (i, simp append-nil h)
onward-Shows s f g d fault (i, h) k = (i, simp append-nil h)

pub run-Shows_from :
    (es : List SharedEvent) (d : RemoteDatabase) → Shows (λ i. share i es d) d (run es d)
unfolding run share
run-Shows_from [] d = nothing-Shows 0 d
run-Shows_from (e ∷ es) d =
    onward-Shows (λ i. share_of i e d) (λ i. share i es) (run es) d (deliver_shared e d)
      (deliver_shared-Shows e d) (run-Shows_from es)

-- Whatever transactions begin, whatever their owners start and in whatever order gRPC reports and
-- the context runs its queue: each transaction comes to just what its own events alone bring it to,
-- with a context for itself. So it makes the same calls, keeps the same operations, has the same
-- handlers in the queue in the same order, and calls the same handlers with the same values. A run
-- that ends in an exception, or in undefined behaviour, ends so for one transaction alone.
pub run-Shows :
    (es : List SharedEvent)
    → Shows (λ i. share i es new_database) new_database (run es new_database)
run-Shows es = run-Shows_from es new_database
