-- ===== src/Ethdb/Service/Closing.antt =====
-- Closing the cursors of a transaction, one after the other.
use silkoroutine.Common.{
  ℕ, Bytes, List, [], ◌∷◌, ◌++◌, some, ◌≡◌, ◌≢◌, refl, sym, ap, subst, ◌∙◌, length, get_elem?, set,
  append-nil, inl, inr, ◌==◌, ==_iff, Bool-cases, false, length-set,
}
use silkoroutine.Remote.{Pair, close_message}
use silkoroutine.Kv.Exec.{Event}
use silkoroutine.Kv.Awaitables.{async_close_cursor}
use silkoroutine.Kv.Exchange.{answered}
use silkoroutine.Ethdb.TableMap.{TableMap}
use silkoroutine.Ethdb.Session.{Session, value}
use silkoroutine.Ethdb.RemoteCursor.Answered.{close_cursor-answered, close_cursor_again}
use silkoroutine.Ethdb.RemoteTransaction.{close_each}
use silkoroutine.Ethdb.RemoteTransaction.Invariant.{Below, Distinct}
use silkoroutine.Ethdb.RemoteTransaction.Termination.{id_at, get_elem?-lt}
use silkoroutine.Ethdb.Service.{Service, Exchanges, Spec, spec_close_each}
use silkoroutine.Ethdb.Service.View.{view, view-set}
use silkoroutine.Ethdb.Service.Exchanges.{script, Ran, Ran-trans, Ran-one}

module _ (S : Service) where
  abbrev pub Closes : Exchanges → TableMap ℕ → List (List Event) → Session → Type 0
  Closes es m rest s =
      (t : Session) × (close_each m s ≡ (value tt, t)) × Ran es rest s t × (t.world.posted ≡ [])

  abbrev pub closings_of : List ℕ → TableMap ℕ → Spec S → Exchanges
  closings_of heap m a = (spec_close_each S (view heap m) a).exchanges

  pub closings_of_closed :
      (heap : List ℕ) (table : Bytes) (c : ℕ) (m : TableMap ℕ) (a : Spec S)
      → get_elem? heap c ≡ some 0
      → closings_of heap ((table, c) ∷ m) a ≡ closings_of heap m a
  unfolding spec_close_each
  closings_of_closed heap table c m a held =
      ap (λ (n : ℕ). (spec_close_each S ((table, n) ∷ view heap m) a).exchanges) (ap id_at held)

  pub answer_close : ℕ → Spec S → Pair
  answer_close id a = (S.answer (close_message id) a.service).0

  pub after_close : ℕ → Spec S → Spec S
  after_close id a = record a { service = (S.answer (close_message id) a.service).1 }

  spec_close_open :
      (table : Bytes) (id : ℕ) (ids : TableMap ℕ) (a : Spec S)
      → (id == 0) ≡ false
      → (spec_close_each S ((table, id) ∷ ids) a).exchanges
        ≡ (async_close_cursor id, answer_close id a)
          ∷ (spec_close_each S ids (after_close id a)).exchanges
  unfolding spec_close_each answer_close after_close
  spec_close_open table id ids a z = rw (z, spec_close_each) refl

  pub closings_of_open :
      (heap : List ℕ) (table : Bytes) (c id : ℕ) (m : TableMap ℕ) (a : Spec S)
      → get_elem? heap c ≡ some id
      → (id == 0) ≡ false
      → closings_of heap ((table, c) ∷ m) a
        ≡ (async_close_cursor id, answer_close id a) ∷ closings_of heap m (after_close id a)
  closings_of_open heap table c id m a held z =
      ap (λ (n : ℕ). (spec_close_each S ((table, n) ∷ view heap m) a).exchanges) (ap id_at held)
      ∙ spec_close_open table id (view heap m) a z

  close_open :
      (table : Bytes) (c id : ℕ) (p : Pair) (es : Exchanges) (m : TableMap ℕ)
      (rest : List (List Event)) (s : Session)
      → s.world.posted ≡ []
      → get_elem? s.heap c ≡ some id
      → id ≢ 0
      → s.events ≡ answered (async_close_cursor id) p ∷ (script es ++ rest)
      → ((u : Session)
          → u.world.posted ≡ []
          → u.heap ≡ set s.heap c 0
          → u.events ≡ script es ++ rest
          → Closes es m rest u)
      → Closes ((async_close_cursor id, p) ∷ es) ((table, c) ∷ m) rest s
  unfolding close_each
  close_open table c id p es m rest s quiet held ne ev go =
      let (u, run, spoke, heap) =
        close_cursor-answered c p (script es ++ rest) s quiet id held ne ev in
      let (t, run', ran, quiet') = go u spoke.posted heap spoke.events in
      (t, rw run run', Ran-trans (Ran-one spoke) ran, quiet')

  close_closed :
      (table : Bytes) (c : ℕ) (es : Exchanges) (m : TableMap ℕ) (rest : List (List Event))
      (s : Session)
      → get_elem? s.heap c ≡ some 0
      → Closes es m rest s
      → Closes es ((table, c) ∷ m) rest s
  unfolding close_each
  close_closed table c es m rest s held (t, run, ran, quiet) =
      (t, rw (close_cursor_again c s held) run, ran, quiet)

  pub close_each-Closes :
      (m : TableMap ℕ) (rest : List (List Event)) (s : Session) (a : Spec S)
      → s.world.posted ≡ []
      → Below (length s.heap) m
      → Distinct m
      → s.events ≡ script (closings_of s.heap m a) ++ rest
      → Closes (closings_of s.heap m a) m rest s
  unfolding close_each spec_close_each
  close_each-Closes [] rest s a quiet b d ev =
      (s, refl, record { calls = sym (append-nil _); events = ev }, quiet)
  close_each-Closes ((table, c) ∷ m) rest s a quiet b d ev =
      let (id, held) = get_elem?-lt s.heap c b.0 in
      elim (Bool-cases (id == 0)) [
        | inl z ↦
            let held0 : get_elem? s.heap c ≡ some 0 = held ∙ ap some ((==_iff id 0).0 z) in
            let es = closings_of_closed s.heap table c m a held0 in
            subst (λ (x : Exchanges). Closes x ((table, c) ∷ m) rest s) (sym es)
              (close_closed table c (closings_of s.heap m a) m rest s held0 (
                close_each-Closes m rest s a quiet b.1 d.1
                  (ev ∙ ap (λ (x : Exchanges). script x ++ rest) es)))
        | inr z ↦
            let es = closings_of_open s.heap table c id m a held z in
            subst (λ (x : Exchanges). Closes x ((table, c) ∷ m) rest s) (sym es)
              (close_open table c id (answer_close id a) (closings_of s.heap m (after_close id a)) m
                rest s quiet held (λ e. cc (z, (==_iff id 0).1 e))
                (ev ∙ ap (λ (x : Exchanges). script x ++ rest) es)
                λ u q heap e.
                  let same : closings_of u.heap m (after_close id a)
                      ≡ closings_of s.heap m (after_close id a) =
                    ap (λ (ids : TableMap ℕ). (spec_close_each S ids (after_close id a)).exchanges)
                      (ap (λ (h : List ℕ). view h m) heap ∙ view-set s.heap c m d.0) in
                  subst (λ (x : Exchanges). Closes x m rest u) same
                    (close_each-Closes m rest u (after_close id a) q (rw (heap, length-set) b.1) d.1
                      (e ∙ ap (λ (x : Exchanges). script x ++ rest) (sym same))))
      ]
