-- ===== src/Ethdb/Service/Faults/Seeks.antt =====
-- A seek by table with which one exchange fails.
use silkoroutine.Common.{
  ℕ, Bytes, [], ◌∷◌, ◌++◌, some, ◌≡◌, refl, sym, ap, subst, ◌∙◌, length, get_elem?, append-nil,
  get_elem?-append_last, set-append_last, Bool-cases, inl, inr, ◌==◌, ==_iff, Option,
}
use silkoroutine.Util.{KeyValue}
use silkoroutine.Remote.{Pair, open_message, seek_message, close_message}
use silkoroutine.Kv.Awaitables.{async_open_cursor, async_seek}
use silkoroutine.Ethdb.Session.{Session, pure, ◌>>=◌, ◌>>◌}
use silkoroutine.Ethdb.RemoteCursor.{
  key_value, new_cursor, open_cursor, seek_key, seek, close_cursor,
}
use silkoroutine.Ethdb.RemoteCursor.Answered.{open_cursor-answered, seek_key-answered}
use silkoroutine.Ethdb.Service.{
  seek_table_op, perform, Service, Exchanges, Spec, Step, spec_close_id, spec_perform,
}
use silkoroutine.Ethdb.Service.Exchanges.{Ran-one}
use silkoroutine.Ethdb.Service.Cursors.{Shows}
use silkoroutine.Ethdb.Service.Seeks.{spec_close_id_closed, spec_close_id_open}
use silkoroutine.Ethdb.Service.Faults.{
  Breaks, nothing-Breaks, await-Breaks, continue-Breaks, bind-Breaks, continue-result_of,
}
use silkoroutine.Ethdb.Service.Faults.Cursors.{seek_key-Breaks, close_cursor-Breaks}

open_cursor-Breaks :
    (c : ℕ) (table : Bytes) (o : Pair) (s : Session)
    → s.world.posted ≡ []
    → get_elem? s.heap c ≡ some 0
    → Breaks (open_cursor c table) ((async_open_cursor table, o) ∷ []) s
unfolding open_cursor
open_cursor-Breaks c table o s quiet held es r q fs k rest h ev =
    let (t, run, calls, events) =
      await-Breaks (async_open_cursor table) o s quiet es r q fs k rest h ev in
    (t, rw held (simp (run, continue-result_of) refl), calls, events)

module _ (S : Service) where
  close_id-Breaks :
      (c id : ℕ) (s : Session) (a : Spec S)
      → s.world.posted ≡ []
      → get_elem? s.heap c ≡ some id
      → Breaks (close_cursor c) (spec_close_id S id a).exchanges s
  close_id-Breaks c id s a quiet held = elim (Bool-cases (id == 0)) [
    | inl z ↦
        subst (λ (es : Exchanges). Breaks (close_cursor c) es s)
          (sym (ap (λ (x : Step S (Unit {0})). x.exchanges) (spec_close_id_closed S id a z)))
          (nothing-Breaks (close_cursor c) s)
    | inr z ↦
        subst (λ (es : Exchanges). Breaks (close_cursor c) es s)
          (sym (ap (λ (x : Step S (Unit {0})). x.exchanges) (spec_close_id_open S id a z)))
          (close_cursor-Breaks c (S.answer (close_message id) a.service).0 s quiet id held
            (λ e. cc (z, (==_iff id 0).1 e)))
  ]

  pub seek_table-Breaks :
      (table key : Bytes) (s : Session) (a : Spec S)
      → Shows S a s
      → Breaks
          (perform (seek_table_op table key))
          (spec_perform S (seek_table_op table key) a).exchanges
          s
  unfolding perform spec_perform new_cursor seek
  seek_table-Breaks table key s a v =
      let (o, st) = S.answer (open_message table) a.service in
      let id : ℕ = o.cursorid in
      let (p, st') = S.answer (seek_message id key) st in
      let b : Spec S = record a { service = st' } in
      let closes : Exchanges = (spec_close_id S id b).exchanges in
      let c : ℕ = length s.heap in
      let s1 : Session = record s { heap = s.heap ++ 0 ∷ [] } in
      let free : get_elem? s1.heap c ≡ some 0 = get_elem?-append_last s.heap 0 in
      let sought : Breaks (seek c table key)
          ((async_open_cursor table, o) ∷ (async_seek id key, p) ∷ closes) s1 =
        bind-Breaks {B = KeyValue} (open_cursor c table)
          (λ _. seek_key c key >>= λ kv. close_cursor c >> pure kv)
          ((async_open_cursor table, o) ∷ []) ((async_seek id key, p) ∷ closes) s1
          (open_cursor-Breaks c table o s1 v.quiet free)
          λ rest ev.
            let (t, run, spoke, heap) = open_cursor-answered c o rest s1 v.quiet table free ev in
            let opened : t.heap ≡ s.heap ++ id ∷ [] = heap ∙ set-append_last s.heap 0 id in
            let held : get_elem? t.heap c ≡ some id = rw opened (get_elem?-append_last s.heap id) in
            (
              tt,
              t,
              run,
              Ran-one spoke,
              bind-Breaks {B = KeyValue} (seek_key c key) (λ kv. close_cursor c >> pure kv)
                  ((async_seek id key, p) ∷ []) closes t
                  (seek_key-Breaks c p t spoke.posted id held key)
                  (λ rest' ev'.
                    let (u, run', spoke', heap') =
                      seek_key-answered c p rest' t spoke.posted id key held ev' in
                    (
                      key_value p,
                      u,
                      run',
                      Ran-one spoke',
                      continue-Breaks {B = KeyValue} (close_cursor c) (λ _. pure (key_value p))
                          closes u (close_id-Breaks c id u b spoke'.posted (rw heap' held)),
                    )),
            ) in
      subst
        (λ (es : Exchanges).
          Breaks (perform (seek_table_op table key))
            ((async_open_cursor table, o) ∷ (async_seek id key, p) ∷ es) s)
        (sym (append-nil closes))
        λ es r q fs k rest h ev.
          let (t, run, calls, events) =
            continue-Breaks {B = Option KeyValue} (seek c table key) (λ kv. pure (some kv))
              ((async_open_cursor table, o) ∷ (async_seek id key, p) ∷ closes) s1 sought es r q fs k
              rest h ev in
          (t, run, calls, events)
