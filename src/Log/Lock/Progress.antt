-- ===== src/Log/Lock/Progress.antt =====
-- The threads are not stuck.
use silkoroutine.Common.{
  ℕ, true, Bytes, List, [], ◌∷◌, Option, none, some, ◌≡◌, ◌≢◌, refl, ap, ◌∙◌, ◌==◌, arith,
  Option-cases, inl, inr,
}
use silkoroutine.Log.Lock.{Thread, Threads, start, Step, lock, put, unlock, Reach}
use silkoroutine.Log.Lock.Served.{Served, is_owner, statements_of, start-Inv}
use silkoroutine.Log.Lock.Lines.{Reach-Inv}

-- A thread that has made all its statements.
abbrev pub finished : Thread
finished = record { writing = none; todo = [] }

can_lock :
    (s : Threads) (j : ℕ) (th : Thread)
    → s.owner ≡ none
    → s.threads j ≡ th
    → th.writing ≡ none
    → th ≢ finished
    → (t : Threads) × Step s t
can_lock s j th free e outside busy = by_todo th.todo refl
  where
    is_now :
        (todo : List (List Bytes)) → th.todo ≡ todo → th ≡ record { writing = none; todo = todo }
    is_now todo h =
        ap (λ (w : Option (List Bytes)). record { writing = w; todo = th.todo }) outside
        ∙ ap (λ (l : List (List Bytes)). record { writing = none; todo = l }) h

    by_todo : (todo : List (List Bytes)) → th.todo ≡ todo → (t : Threads) × Step s t
    by_todo [] h = absurd (busy (is_now [] h))
    by_todo (texts ∷ rest) h = (_, lock j texts rest free (e ∙ is_now (texts ∷ rest) h))

can_write :
    (s : Threads) (i : ℕ) (texts : List Bytes)
    → (s.threads i).writing ≡ some texts
    → (t : Threads) × Step s t
can_write s i [] e = (
  _,
  unlock i (s.threads i).todo
      (ap (λ (w : Option (List Bytes)). record { writing = w; todo = (s.threads i).todo }) e),
)
can_write s i (text ∷ texts) e = (
  _,
  put i text texts (s.threads i).todo
      (ap (λ (w : Option (List Bytes)). record { writing = w; todo = (s.threads i).todo }) e),
)

-- Whatever threads log, and however far they have come: while some thread has not made all its
-- statements, some thread can go on.
pub never_stuck :
    (l : ℕ → List (List Bytes)) (s : Threads) (j : ℕ)
    → Reach (start l) s
    → s.threads j ≢ finished
    → (t : Threads) × Step s t
never_stuck l s j r busy =
    let v = Reach-Inv l (start-Inv l) r in
    elim (Option-cases s.owner) [
      | inl free ↦
          let was : Served (is_owner none j) v.done (statements_of j v.log) (l j) (s.threads j) =
            simp free at (v.served j) in
          can_lock s j (s.threads j) free refl was.0 busy
      | inr (i, held) ↦
          let self : (i == i) ≡ true = ground arith in
          let was : Served true v.done (statements_of i v.log) (l i) (s.threads i) =
            simp (held, self) at (v.served i) in
          can_write s i was.0 was.1
    ]
