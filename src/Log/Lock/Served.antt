-- ===== src/Log/Lock/Served.antt =====
-- What each thread has put out, of the statements that it has to log.
use mathlib.Core.List.{flatten, map-append}
use silkoroutine.Common.{
  ℕ, Bool, true, false, Bytes, List, [], ◌∷◌, ◌++◌, map, Option, none, some, ◌≡◌, refl, sym, ap,
  ◌∙◌, ◌==◌, if◌then◌else◌, append_assoc, append-nil, Bool-cases, inl, inr,
}
use silkoroutine.Log.Lock.{Thread, Threads, start}

-- The statements of one thread, out of those of all.
abbrev pub statements_of : {A : Type 0} → ℕ → List (ℕ × A) → List A
statements_of j [] = []
statements_of j ((i, texts) ∷ log) =
    if i == j then texts ∷ statements_of j log else statements_of j log

abbrev pub texts_of : List (ℕ × List Bytes) → List Bytes
texts_of log = flatten (map (λ (e : ℕ × List Bytes). e.1) log)

abbrev pub is_owner : Option ℕ → ℕ → Bool
is_owner none j = false
is_owner (some i) j = i == j

-- A thread that has put the statements `w` of `l`, and `done` of the next one if it has the lock.
abbrev pub Served : Bool → List Bytes → List (List Bytes) → List (List Bytes) → Thread → Type 0
Served true done w l th =
    (rest : List Bytes) × (th.writing ≡ some rest) × (w ++ (done ++ rest) ∷ th.todo ≡ l)
Served false done w l th = (th.writing ≡ none) × (w ++ th.todo ≡ l)

pub record Inv (l : ℕ → List (List Bytes)) (s : Threads) : Type 0 where
  pub log : List (ℕ × List Bytes)
  pub done : List Bytes
  pub out : s.output ≡ texts_of log ++ done
  pub free : s.owner ≡ none → done ≡ []
  pub served : (j : ℕ) → Served (is_owner s.owner j) done (statements_of j log) (l j) (s.threads j)

pub start-Inv : (l : ℕ → List (List Bytes)) → Inv l (start l)
unfolding flatten
start-Inv l = record {
  log = [];
  done = [];
  out = refl;
  free = λ h. refl;
  served = λ j. (refl, refl);
}

pub flatten-append :
    {A : Type 0} → (xs ys : List (List A)) → flatten (xs ++ ys) ≡ flatten xs ++ flatten ys
unfolding flatten
flatten-append [] ys = refl
flatten-append (x ∷ xs) ys = simp (flatten-append xs ys, append_assoc)

pub texts_of-last :
    (log : List (ℕ × List Bytes)) (i : ℕ) (texts : List Bytes)
    → texts_of (log ++ (i, texts) ∷ []) ≡ texts_of log ++ texts
unfolding flatten
texts_of-last log i texts = simp (map-append, flatten-append, append-nil) refl

pub statements_of-last_self :
    (j : ℕ) (log : List (ℕ × List Bytes)) (i : ℕ) (texts : List Bytes)
    → (i == j) ≡ true
    → statements_of j (log ++ (i, texts) ∷ []) ≡ statements_of j log ++ texts ∷ []
statements_of-last_self j [] i texts h = rw h
statements_of-last_self j ((k, t) ∷ log) i texts h = elim (Bool-cases (k == j)) [
  | inl e ↦ simp e (ap (◌∷◌ t) (statements_of-last_self j log i texts h))
  | inr e ↦ simp e (statements_of-last_self j log i texts h)
]

pub statements_of-last_other :
    (j : ℕ) (log : List (ℕ × List Bytes)) (i : ℕ) (texts : List Bytes)
    → (i == j) ≡ false
    → statements_of j (log ++ (i, texts) ∷ []) ≡ statements_of j log
statements_of-last_other j [] i texts h = rw h
statements_of-last_other j ((k, t) ∷ log) i texts h = elim (Bool-cases (k == j)) [
  | inl e ↦ simp e (ap (◌∷◌ t) (statements_of-last_other j log i texts h))
  | inr e ↦ simp e (statements_of-last_other j log i texts h)
]

module _ (done : List Bytes) (w l : List (List Bytes)) (th : Thread) where
  -- A thread that is inside a statement has the lock.
  pub inside :
      (b : Bool) {texts : List Bytes} → Served b done w l th → th.writing ≡ some texts → b ≡ true
  inside true h e = refl
  inside false h e = cc (h.0)

  pub locked :
      (texts : List Bytes) (rest : List (List Bytes))
      → th ≡ record { writing = none; todo = texts ∷ rest }
      → Served false done w l th
      → Served true [] w l (record { writing = some texts; todo = rest })
  locked texts rest e (_, h) = (texts, refl, ap (λ (x : Thread). w ++ x.todo) (sym e) ∙ h)

  pub put_one :
      (text : Bytes) (texts : List Bytes) (rest : List (List Bytes))
      → th ≡ record { writing = some (text ∷ texts); todo = rest }
      → Served true done w l th
      → Served true (done ++ text ∷ []) w l (record { writing = some texts; todo = rest })
  put_one text texts rest e (r, wr, h) =
      let same : r ≡ text ∷ texts = cc in
      let todo : th.todo ≡ rest = ap (λ (x : Thread). x.todo) e in
      (texts, refl, simp append_assoc (simp (same, todo) at h))

  pub unlocked :
      (rest : List (List Bytes))
      → th ≡ record { writing = some []; todo = rest }
      → Served true done w l th
      → Served false [] (w ++ done ∷ []) l (record { writing = none; todo = rest })
  unlocked rest e (r, wr, h) =
      let same : r ≡ [] = cc in
      let todo : th.todo ≡ rest = ap (λ (x : Thread). x.todo) e in
      (refl, simp (append_assoc, append-nil) (simp (same, todo, append-nil) at h))
