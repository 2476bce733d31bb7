-- ===== src/Ethdb/Service/Faults/Cursors.antt =====
-- The cursors of a transaction with which one exchange fails.
use silkoroutine.Common.{
  ℕ, Bytes, List, [], ◌∷◌, ◌++◌, some, ◌≡◌, ◌≢◌, refl, sym, ap, subst, ◌∙◌, length, get_elem?,
  get_elem?-append_last, Option-cases, Bool-cases, inl, inr, ◌==◌, ==_iff, false, length-set, arith,
}
use silkoroutine.Remote.{Pair, open_message}
use silkoroutine.Kv.Awaitables.{async_open_cursor, async_seek, async_next, async_close_cursor}
use silkoroutine.Ethdb.TableMap.{TableMap, find}
use silkoroutine.Ethdb.Session.{Session, continue}
use silkoroutine.Ethdb.RemoteCursor.{new_cursor, open_cursor, seek_key, next, close_cursor}
use silkoroutine.Ethdb.RemoteCursor.Answered.{close_cursor-answered, close_cursor_again}
use silkoroutine.Ethdb.RemoteTransaction.{cursor_for, open_new, close_each}
use silkoroutine.Ethdb.RemoteTransaction.Invariant.{Below, Distinct}
use silkoroutine.Ethdb.RemoteTransaction.Termination.{id_at, get_elem?-lt}
use silkoroutine.Ethdb.Service.{Service, Exchanges, Spec, spec_cursor, spec_close_each}
use silkoroutine.Ethdb.Service.View.{view, view-set, find-view-none, find-view-some, find-lt}
use silkoroutine.Ethdb.Service.Exchanges.{Ran-one}
use silkoroutine.Ethdb.Service.Cursors.{Shows, spec_cursor_known, spec_cursor_new}
use silkoroutine.Ethdb.Service.Closing.{
  closings_of, closings_of_closed, closings_of_open, answer_close, after_close,
}
use silkoroutine.Ethdb.Service.Faults.{
  Breaks, nothing-Breaks, await-Breaks, bind-Breaks, continue-result_of,
}

-- The methods of a cursor that holds an id.
module _ (c : ℕ) (p : Pair) (s : Session) (quiet : s.world.posted ≡ []) (id : ℕ)
    (held : get_elem? s.heap c ≡ some id) where
  pub seek_key-Breaks : (key : Bytes) → Breaks (seek_key c key) ((async_seek id key, p) ∷ []) s
  unfolding seek_key
  seek_key-Breaks key es r q fs k rest h ev =
      let (t, run, calls, events) =
        await-Breaks (async_seek id key) p s quiet es r q fs k rest h ev in
      (t, rw held (simp (run, continue-result_of) refl), calls, events)

  pub next-Breaks : Breaks (next c) ((async_next id, p) ∷ []) s
  unfolding next
  next-Breaks es r q fs k rest h ev =
      let (t, run, calls, events) = await-Breaks (async_next id) p s quiet es r q fs k rest h ev in
      (t, rw held (simp (run, continue-result_of) refl), calls, events)

  pub close_cursor-Breaks : id ≢ 0 → Breaks (close_cursor c) ((async_close_cursor id, p) ∷ []) s
  unfolding close_cursor
  close_cursor-Breaks ne es r q fs k rest h ev =
      let (t, run, calls, events) =
        await-Breaks (async_close_cursor id) p s quiet es r q fs k rest h ev in
      let closed : (id == 0) ≡ false = ground arith in
      (t, rw (held, continue) (rw (closed, run) (simp continue-result_of refl)), calls, events)

module _ (S : Service) where
  pub cursor_for-Breaks :
      (table : Bytes) (s : Session) (a : Spec S)
      → Shows S a s
      → Breaks (cursor_for table) (spec_cursor S table a).exchanges s
  unfolding cursor_for open_new new_cursor open_cursor
  cursor_for-Breaks table s a v = elim (Option-cases (find table s.cursors)) [
    | inl e ↦
        let p = (S.answer (open_message table) a.service).0 in
        let same =
          spec_cursor_new S table a
            (ap (find table) (sym v.ids) ∙ find-view-none s.heap table s.cursors e) in
        rw same λ es r q fs k rest h ev.
          let (t, run, calls, events) =
            await-Breaks (async_open_cursor table) p (record s { heap = s.heap ++ 0 ∷ [] }) v.quiet
              es r q fs k rest h ev in
          (
            t,
            rw (e, cursor_for)
                (rw (get_elem?-append_last s.heap 0) (simp (run, continue-result_of) refl)),
            calls,
            events,
          )
    | inr (c, e) ↦
        let (id, held) =
          get_elem?-lt s.heap c (find-lt (length s.heap) table s.cursors c v.valid.bounded e) in
        let known : find table a.ids ≡ some id =
          ap (find table) (sym v.ids)
          ∙ find-view-some s.heap table s.cursors c e
          ∙ ap (λ o. some (id_at o)) held in
        rw (spec_cursor_known S table a id known) (nothing-Breaks (cursor_for table) s)
  ]

  pub close_each-Breaks :
      (m : TableMap ℕ) (s : Session) (a : Spec S)
      → s.world.posted ≡ []
      → Below (length s.heap) m
      → Distinct m
      → Breaks (close_each m) (closings_of S s.heap m a) s
  unfolding close_each spec_close_each
  close_each-Breaks [] s a quiet b d = nothing-Breaks (close_each []) s
  close_each-Breaks ((table, c) ∷ m) s a quiet b d =
      let (id, held) = get_elem?-lt s.heap c b.0 in
      elim (Bool-cases (id == 0)) [
        | inl z ↦
            let held0 : get_elem? s.heap c ≡ some 0 = held ∙ ap some ((==_iff id 0).0 z) in
            let es = closings_of_closed S s.heap table c m a held0 in
            subst (λ (x : Exchanges). Breaks (close_each ((table, c) ∷ m)) x s) (sym es)
              λ xs r q fs k rest h ev.
                let (t, run, calls, events) =
                  close_each-Breaks m s a quiet b.1 d.1 xs r q fs k rest h ev in
                (t, rw (close_cursor_again c s held0) run, calls, events)
        | inr z ↦
            let ne : id ≢ 0 = λ e. cc (z, (==_iff id 0).1 e) in
            let p = answer_close S id a in
            let es = closings_of_open S s.heap table c id m a held z in
            subst (λ (x : Exchanges). Breaks (close_each ((table, c) ∷ m)) x s) (sym es)
              (bind-Breaks (close_cursor c) (λ _. close_each m) ((async_close_cursor id, p) ∷ [])
                (closings_of S s.heap m (after_close S id a)) s
                (close_cursor-Breaks c p s quiet id held ne)
                λ rest ev.
                  let (u, run, spoke, heap) =
                    close_cursor-answered c p rest s quiet id held ne ev in
                  let same : closings_of S u.heap m (after_close S id a)
                      ≡ closings_of S s.heap m (after_close S id a) =
                    ap
                      (λ (ids : TableMap ℕ). (spec_close_each S ids (after_close S id a)).exchanges)
                      (ap (λ (h : List ℕ). view h m) heap ∙ view-set s.heap c m d.0) in
                  (
                    tt,
                    u,
                    run,
                    Ran-one spoke,
                    subst (λ (x : Exchanges). Breaks (close_each m) x u) same
                        (close_each-Breaks m u (after_close S id a) spoke.posted
                          (rw (heap, length-set) b.1) d.1),
                  ))
      ]
