-- ===== src/Log/Lock/Lines.antt =====
-- The statements of the threads are not mixed.
use silkoroutine.Common.{
  ℕ, true, false, Bytes, List, [], ◌∷◌, ◌++◌, Option, none, some, ◌≡◌, refl, sym, ap, ◌∙◌, ◌==◌,
  ==_iff, append_assoc, append-nil, Bool-cases, inl, inr, arith, subst,
}
use silkoroutine.Log.Lock.{
  Thread, Threads, update, start, Step, lock, put, unlock, Reach, here, next,
}
use silkoroutine.Log.Lock.Served.{
  statements_of, texts_of, is_owner, Served, Inv, start-Inv, texts_of-last, statements_of-last_self,
  statements_of-last_other, inside, locked, put_one, unlocked,
}

module _ (l : ℕ → List (List Bytes)) (s : Threads) (v : Inv l s) where
  at_self : (i j : ℕ) (th : Thread) → s.threads i ≡ th → (i == j) ≡ true → s.threads j ≡ th
  at_self i j th e self = subst (λ k. s.threads k ≡ th) ((==_iff i j).0 self) e

  lock-Inv :
      (i : ℕ) (texts : List Bytes) (rest : List (List Bytes))
      → s.owner ≡ none
      → s.threads i ≡ record { writing = none; todo = texts ∷ rest }
      → Inv l (record s {
        owner = some i;
        threads = update i (record { writing = some texts; todo = rest }) s.threads;
      })
  lock-Inv i texts rest o e = record {
    log = v.log;
    done = [];
    out = v.out ∙ ap (λ d. texts_of v.log ++ d) (v.free o);
    free = λ h. refl;
    served = λ j.
        let was : Served false v.done (statements_of j v.log) (l j) (s.threads j) =
          simp o at (v.served j) in
        elim (Bool-cases (i == j)) [
          | inl self ↦ simp self (
              locked v.done (statements_of j v.log) (l j) (s.threads j) texts rest
                (at_self i j _ e self) was)
          | inr other ↦ simp other was
        ];
  }

  -- Who writes has the lock, and the others are outside.
  owner_of :
      (i : ℕ) (texts : List Bytes) (rest : List (List Bytes))
      → s.threads i ≡ record { writing = some texts; todo = rest }
      → is_owner s.owner i ≡ true
  owner_of i texts rest e =
      inside v.done (statements_of i v.log) (l i) (s.threads i) (is_owner s.owner i) (v.served i)
        (ap (λ (x : Thread). x.writing) e)

  other_of :
      (o : Option ℕ) (i j : ℕ) → is_owner o i ≡ true → (i == j) ≡ false → is_owner o j ≡ false
  other_of none i j h other = cc
  other_of (some k) i j h other = ground arith

  self_of : (o : Option ℕ) (i j : ℕ) → is_owner o i ≡ true → (i == j) ≡ true → is_owner o j ≡ true
  self_of none i j h same = cc
  self_of (some k) i j h same = ground arith

  put-Inv :
      (i : ℕ) (text : Bytes) (texts : List Bytes) (rest : List (List Bytes))
      → s.threads i ≡ record { writing = some (text ∷ texts); todo = rest }
      → Inv l (record s {
        threads = update i (record { writing = some texts; todo = rest }) s.threads;
        output = s.output ++ text ∷ [];
      })
  put-Inv i text texts rest e =
      let own = owner_of i (text ∷ texts) rest e in
      record {
        log = v.log;
        done = v.done ++ text ∷ [];
        out = simp (v.out, append_assoc) refl;
        free = λ h. cc (simp h at own);
        served = λ j. elim (Bool-cases (i == j)) [
          | inl self ↦
              let mine = self_of s.owner i j own self in
              simp (self, mine)
                (put_one v.done (statements_of j v.log) (l j) (s.threads j) text texts rest
                  (at_self i j _ e self) (simp mine at (v.served j)))
          | inr other ↦
              let theirs = other_of s.owner i j own other in
              simp (other, theirs) (simp theirs at (v.served j))
        ];
      }

  unlock-Inv :
      (i : ℕ) (rest : List (List Bytes))
      → s.threads i ≡ record { writing = some []; todo = rest }
      → Inv l (record s {
        owner = none;
        threads = update i (record { writing = none; todo = rest }) s.threads;
      })
  unlock-Inv i rest e =
      let own = owner_of i [] rest e in
      record {
        log = v.log ++ (i, v.done) ∷ [];
        done = [];
        out = v.out ∙ sym (texts_of-last v.log i v.done) ∙ sym (append-nil _);
        free = λ h. refl;
        served = λ j. elim (Bool-cases (i == j)) [
          | inl self ↦
              let mine = self_of s.owner i j own self in
              simp (self, statements_of-last_self j v.log i v.done self)
                (unlocked v.done (statements_of j v.log) (l j) (s.threads j) rest
                  (at_self i j _ e self) (simp mine at (v.served j)))
          | inr other ↦
              let theirs = other_of s.owner i j own other in
              simp (other, statements_of-last_other j v.log i v.done other)
                (simp theirs at (v.served j))
        ];
      }

Step-Inv : (l : ℕ → List (List Bytes)) {s t : Threads} → Inv l s → Step s t → Inv l t
Step-Inv l {s} v (lock i texts rest o e) = lock-Inv l s v i texts rest o e
Step-Inv l {s} v (put i text texts rest e) = put-Inv l s v i text texts rest e
Step-Inv l {s} v (unlock i rest e) = unlock-Inv l s v i rest e

pub Reach-Inv : (l : ℕ → List (List Bytes)) {s t : Threads} → Inv l s → Reach s t → Inv l t
Reach-Inv l v here = v
Reach-Inv l v (next r st) = Step-Inv l (Reach-Inv l v r) st

-- Whatever threads log at the same time, each any list of statements, and in whatever order they
-- run: whenever the lock is free, the output is a row of whole statements, one after the other, in
-- which the statements of each thread are those that it has made, in its order.
pub output_unmixed :
    (l : ℕ → List (List Bytes)) (s : Threads)
    → Reach (start l) s
    → s.owner ≡ none
    → (log : List (ℕ × List Bytes)) × (s.output ≡ texts_of log)
      × ((i : ℕ) → statements_of i log ++ (s.threads i).todo ≡ l i)
output_unmixed l s r o =
    let v = Reach-Inv l (start-Inv l) r in
    (
      v.log,
      v.out ∙ simp (v.free o, append-nil) refl,
      λ i.
          let was : Served false v.done (statements_of i v.log) (l i) (s.threads i) =
            simp o at (v.served i) in
          was.1,
    )
