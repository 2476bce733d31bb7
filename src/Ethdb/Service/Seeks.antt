-- ===== src/Ethdb/Service/Seeks.antt =====
-- A seek by table with a new cursor, against the service.
use silkoroutine.Common.{
  ℕ, length-append, Bytes, List, [], ◌∷◌, ◌++◌, some, ◌≡◌, refl, sym, ap, subst, ◌∙◌, length,
  get_elem?, set, append-nil, get_elem?-append_last, set-append_last, set-get_elem?, Bool-cases,
  inl, inr, ◌==◌, ==_iff, true, false, arith,
}
use silkoroutine.Remote.{open_message, seek_message, close_message}
use silkoroutine.Kv.Exec.{Event}
use silkoroutine.Kv.Awaitables.{async_open_cursor, async_seek, async_close_cursor}
use silkoroutine.Kv.Exchange.{answered}
use silkoroutine.Ethdb.Session.{Session, value}
use silkoroutine.Ethdb.RemoteCursor.{key_value, new_cursor, seek, close_cursor}
use silkoroutine.Ethdb.RemoteCursor.Answered.{
  open_cursor-answered, seek_key-answered, close_cursor-answered, close_cursor_again,
}
use silkoroutine.Ethdb.RemoteTransaction.Invariant.{Below-mono}
use silkoroutine.Ethdb.Service.{
  seek_table_op, perform, Service, Exchanges, Spec, Step, spec_close_id, spec_perform,
}
use silkoroutine.Ethdb.Service.View.{view_grown}
use silkoroutine.Ethdb.Service.Exchanges.{script, script-append, Ran, Ran-trans, Ran-one}
use silkoroutine.Ethdb.Service.Cursors.{Shows, Does, Same}

module _ (S : Service) (id : ℕ) (a : Spec S) where
  pub spec_close_id_closed :
      (id == 0) ≡ true → spec_close_id S id a ≡ record { result = tt; exchanges = []; spec = a }
  unfolding spec_close_id
  spec_close_id_closed z = rw (z, spec_close_id) refl

  pub spec_close_id_open :
      (id == 0) ≡ false
      → let (p, st) = S.answer (close_message id) a.service in
        spec_close_id S id a ≡ record {
          result = tt;
          exchanges = (async_close_cursor id, p) ∷ [];
          spec = record a { service = st };
        }
  unfolding spec_close_id
  spec_close_id_open z = rw (z, spec_close_id) refl

  spec_close_id-ids : (spec_close_id S id a).spec.ids ≡ a.ids
  spec_close_id-ids = elim (Bool-cases (id == 0)) [
    | inl z ↦ ap (λ (x : Step S (Unit {0})). x.spec.ids) (spec_close_id_closed z)
    | inr z ↦ ap (λ (x : Step S (Unit {0})). x.spec.ids) (spec_close_id_open z)
  ]

-- A cursor is closed, with just the exchanges `es`.
abbrev Closed : ℕ → Exchanges → List (List Event) → Session → Type 0
Closed c es rest s =
    (t : Session) × (close_cursor c s ≡ (value tt, t))
    × Ran es rest s t
    × (t.heap ≡ set s.heap c 0)
    × (t.cursors ≡ s.cursors)
    × (t.world.posted ≡ [])

module _ (S : Service) where
  close_cursor-Closed :
      (c id : ℕ) (rest : List (List Event)) (s : Session) (a : Spec S)
      → s.world.posted ≡ []
      → get_elem? s.heap c ≡ some id
      → s.events ≡ script (spec_close_id S id a).exchanges ++ rest
      → Closed c (spec_close_id S id a).exchanges rest s
  close_cursor-Closed c id rest s a quiet held ev = elim (Bool-cases (id == 0)) [
    | inl z ↦
        let es = ap (λ (x : Step S (Unit {0})). x.exchanges) (spec_close_id_closed S id a z) in
        let held0 : get_elem? s.heap c ≡ some 0 = held ∙ ap some ((==_iff id 0).0 z) in
        subst (λ (x : Exchanges). Closed c x rest s) (sym es)
          (
            s,
            close_cursor_again c s held0,
            record {
              calls = sym (append-nil _);
              events = ev ∙ ap (λ (x : Exchanges). script x ++ rest) es;
            },
            sym (set-get_elem? s.heap c 0 held0),
            refl,
            quiet,
          )
    | inr z ↦
        let p = (S.answer (close_message id) a.service).0 in
        let es = ap (λ (x : Step S (Unit {0})). x.exchanges) (spec_close_id_open S id a z) in
        let (t, run, spoke, heap) =
          close_cursor-answered c p rest s quiet id held (λ e. cc (z, (==_iff id 0).1 e))
            (ev ∙ ap (λ (x : Exchanges). script x ++ rest) es) in
        subst (λ (x : Exchanges). Closed c x rest s) (sym es)
          (t, run, Ran-one spoke, heap, spoke.cursors, spoke.posted)
  ]

  pub seek_table-Does :
      (table key : Bytes) (rest : List (List Event)) (s : Session) (a : Spec S)
      → Shows S a s
      → s.events ≡ script (spec_perform S (seek_table_op table key) a).exchanges ++ rest
      → Does S Same
          (perform (seek_table_op table key))
          (spec_perform S (seek_table_op table key) a)
          rest
          s
  unfolding perform spec_perform Same new_cursor seek
  seek_table-Does table key rest s a v ev =
      let (o, st) = S.answer (open_message table) a.service in
      let id : ℕ = o.cursorid in
      let (p, st') = S.answer (seek_message id key) st in
      let b : Spec S = record a { service = st' } in
      let closes = spec_close_id S id b in
      let c : ℕ = length s.heap in
      let after_seek = script closes.exchanges ++ rest in
      let (t, run, spoke, heap) =
        open_cursor-answered c o (answered (async_seek id key) p ∷ after_seek)
          (record s { heap = s.heap ++ 0 ∷ [] }) v.quiet table (get_elem?-append_last s.heap 0)
          (ev ∙ simp (script-append, append-nil) refl) in
      let opened : t.heap ≡ s.heap ++ id ∷ [] = heap ∙ set-append_last s.heap 0 id in
      let held : get_elem? t.heap c ≡ some id = rw opened (get_elem?-append_last s.heap id) in
      let (t', run', spoke', heap') =
        seek_key-answered c p after_seek t spoke.posted id key held spoke.events in
      let (u, closed, ran, heap'', cursors, quiet) =
        close_cursor-Closed c id rest t' b spoke'.posted (rw heap' held) spoke'.events in
      let all =
        Ran-trans (Ran-one {r = async_open_cursor table} {p = o} spoke)
          (Ran-trans (Ran-one {r = async_seek id key} {p = p} spoke') ran) in
      let grown : u.heap ≡ s.heap ++ 0 ∷ [] =
        heap'' ∙ ap (λ (h : List ℕ). set h c 0) (heap' ∙ opened) ∙ set-append_last s.heap id 0 in
      let same : u.cursors ≡ s.cursors = cursors ∙ spoke'.cursors ∙ spoke.cursors in
      (
        some (key_value p),
        u,
        rw (run, run', closed) refl,
        refl,
        subst
            (λ (es : Exchanges).
              Ran ((async_open_cursor table, o) ∷ (async_seek id key, p) ∷ es) rest s u)
            (sym (append-nil closes.exchanges)) (record { calls = all.calls; events = all.events }),
        record {
          valid = record {
            bounded =
                rw (same, grown)
                  (Below-mono (length s.heap) (length (s.heap ++ 0 ∷ [])) s.cursors
                    (omega (arith, length-append s.heap (0 ∷ []))) v.valid.bounded);
            distinct = rw same v.valid.distinct;
          };
          quiet = quiet;
          ids =
              rw (same, grown) (view_grown s.heap 0 s.cursors v.valid.bounded)
              ∙ v.ids
              ∙ sym (spec_close_id-ids S id b);
        },
      )
