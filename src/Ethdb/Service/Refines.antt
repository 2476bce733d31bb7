-- ===== src/Ethdb/Service/Refines.antt =====
-- The transactions and cursors of the program implement the specification.
use silkoroutine.Common.{
  ℕ, Bytes, List, [], ◌∷◌, ◌++◌, none, some, ◌≡◌, refl, sym, ap, subst, ◌∙◌, append-nil,
  append_assoc,
}
use silkoroutine.Remote.{empty_pair, seek_message, next_message}
use silkoroutine.Kv.Reactor.{start_call}
use silkoroutine.Kv.Exec.{Event}
use silkoroutine.Kv.Awaitables.{async_seek, async_next, async_close}
use silkoroutine.Kv.Exchange.{answered}
use silkoroutine.Ethdb.TableMap.{TableMap}
use silkoroutine.Ethdb.Session.{Session, value, begin}
use silkoroutine.Ethdb.Session.Answered.{await-answered}
use silkoroutine.Ethdb.RemoteCursor.{key_value}
use silkoroutine.Ethdb.RemoteCursor.Answered.{seek_key-answered, next-answered}
use silkoroutine.Ethdb.RemoteTransaction
use silkoroutine.Ethdb.Service.{
  Op, open_op, seek_op, next_op, seek_table_op, close_op, perform, perform_all, Service, Exchanges,
  Spec, spec_cursor, spec_close_each, spec_perform, spec_perform_all,
}
use silkoroutine.Ethdb.Service.View.{view}
use silkoroutine.Ethdb.Service.Exchanges.{script, calls_in, script-append, Ran, Ran-trans, Ran-one}
use silkoroutine.Ethdb.Service.Cursors.{Shows, Does, Same, Shows-same, cursor-Does}
use silkoroutine.Ethdb.Service.Seeks.{seek_table-Does}
use silkoroutine.Ethdb.Service.Closing.{Closes, closings_of, close_each-Closes}

module _ (S : Service) where
  open-Does :
      (table : Bytes) (rest : List (List Event)) (s : Session) (a : Spec S)
      → Shows S a s
      → s.events ≡ script (spec_perform S (open_op table) a).exchanges ++ rest
      → Does S Same (perform (open_op table)) (spec_perform S (open_op table) a) rest s
  unfolding perform spec_perform Same
  open-Does table rest s a v ev =
      let x = spec_cursor S table a in
      let (c, t, run, held, ran, shows) =
        cursor-Does S table rest s a v (ev ∙ simp append-nil refl) in
      (none, t, rw run refl, refl, rw append-nil ran, shows)

  seek-Does :
      (table key : Bytes) (rest : List (List Event)) (s : Session) (a : Spec S)
      → Shows S a s
      → s.events ≡ script (spec_perform S (seek_op table key) a).exchanges ++ rest
      → Does S Same (perform (seek_op table key)) (spec_perform S (seek_op table key) a) rest s
  unfolding perform spec_perform Same
  seek-Does table key rest s a v ev =
      let x = spec_cursor S table a in
      let (p, st) = S.answer (seek_message x.result key) x.spec.service in
      let (c, t, run, held, ran, shows) =
        cursor-Does S table (answered (async_seek x.result key) p ∷ rest) s a v
          (ev ∙ simp (script-append, append_assoc) refl) in
      let (u, run', spoke, heap) =
        seek_key-answered c p rest t shows.quiet x.result key held ran.events in
      (
        some (key_value p),
        u,
        rw run (rw run' refl),
        refl,
        Ran-trans ran (Ran-one spoke),
        Shows-same S x.spec st t u heap spoke.cursors spoke.posted shows,
      )

  next-Does :
      (table : Bytes) (rest : List (List Event)) (s : Session) (a : Spec S)
      → Shows S a s
      → s.events ≡ script (spec_perform S (next_op table) a).exchanges ++ rest
      → Does S Same (perform (next_op table)) (spec_perform S (next_op table) a) rest s
  unfolding perform spec_perform Same
  next-Does table rest s a v ev =
      let x = spec_cursor S table a in
      let (p, st) = S.answer (next_message x.result) x.spec.service in
      let (c, t, run, held, ran, shows) =
        cursor-Does S table (answered (async_next x.result) p ∷ rest) s a v
          (ev ∙ simp (script-append, append_assoc) refl) in
      let (u, run', spoke, heap) = next-answered c p rest t shows.quiet x.result held ran.events in
      (
        some (key_value p),
        u,
        rw run (rw run' refl),
        refl,
        Ran-trans ran (Ran-one spoke),
        Shows-same S x.spec st t u heap spoke.cursors spoke.posted shows,
      )

  close-Does :
      (rest : List (List Event)) (s : Session) (a : Spec S)
      → Shows S a s
      → s.events ≡ script (spec_perform S close_op a).exchanges ++ rest
      → Does S Same (perform close_op) (spec_perform S close_op a) rest s
  unfolding perform spec_perform Same RemoteTransaction.close
  close-Does rest s a v ev =
      let es = (spec_close_each S a.ids a).exchanges in
      let same : closings_of S s.heap s.cursors a ≡ es =
        ap (λ (ids : TableMap ℕ). (spec_close_each S ids a).exchanges) v.ids in
      let ev' : s.events
          ≡ script (closings_of S s.heap s.cursors a) ++ (answered async_close empty_pair ∷ rest) =
        ev
        ∙ simp (script-append, append_assoc)
            (ap (λ (x : Exchanges). script x ++ (answered async_close empty_pair ∷ rest))
              (sym same)) in
      let (t, run, ran, quiet) =
        subst (λ (x : Exchanges). Closes S x s.cursors (answered async_close empty_pair ∷ rest) s)
          same
          (close_each-Closes S s.cursors (answered async_close empty_pair ∷ rest) s a v.quiet
            v.valid.bounded v.valid.distinct ev') in
      let (u, run', spoke, heap) =
        await-answered async_close empty_pair rest (record t { cursors = [] }) quiet ran.events in
      let last : Ran ((async_close, empty_pair) ∷ []) rest t u = record {
        calls = spoke.calls;
        events = spoke.events;
      } in
      (
        none,
        u,
        rw run (rw run' refl),
        refl,
        Ran-trans ran last,
        record {
          valid = record { bounded = rw (spoke.cursors) tt; distinct = rw (spoke.cursors) tt };
          quiet = spoke.posted;
          ids = rw (spoke.cursors) refl;
        },
      )

  pub perform-Does :
      (op : Op) (rest : List (List Event)) (s : Session) (a : Spec S)
      → Shows S a s
      → s.events ≡ script (spec_perform S op a).exchanges ++ rest
      → Does S Same (perform op) (spec_perform S op a) rest s
  perform-Does (open_op table) = open-Does table
  perform-Does (seek_op table key) = seek-Does table key
  perform-Does (next_op table) = next-Does table
  perform-Does (seek_table_op table key) = seek_table-Does S table key
  perform-Does close_op = close-Does

  perform_all-Does :
      (ops : List Op) (rest : List (List Event)) (s : Session) (a : Spec S)
      → Shows S a s
      → s.events ≡ script (spec_perform_all S ops a).exchanges ++ rest
      → Does S Same (perform_all ops) (spec_perform_all S ops a) rest s
  unfolding perform_all spec_perform_all Same
  perform_all-Does [] rest s a v ev =
      ([], s, refl, refl, record { calls = sym (append-nil _); events = ev }, v)
  perform_all-Does (op ∷ ops) rest s a v ev =
      let x = spec_perform S op a in
      let y = spec_perform_all S ops x.spec in
      let (r, t, run, same, ran, shows) =
        perform-Does op (script y.exchanges ++ rest) s a v
          (ev ∙ simp (script-append, append_assoc, append-nil) refl) in
      let (rs, u, run', same', ran', shows') =
        perform_all-Does ops rest t x.spec shows ran.events in
      (r ∷ rs, u, rw run (rw run' refl), cc, rw append-nil (Ran-trans ran ran'), shows')

-- For a KV service that answers every message, as a function of its state, and for every list of
-- operations (opening, seeking and reading tables, seeking by table with a new cursor, and closing,
-- in any order): the transaction gives the same results as the specification, which has only the
-- tables' ids and the service's state. It starts the stream, and then makes just the
-- specification's calls, uses up their answers, and is left with cursors that have just the
-- specification's ids.
pub perform_all-spec_perform_all :
    (S : Service) (ops : List Op) (st : S.State)
    → let x = spec_perform_all S ops (record { ids = []; service = st }) in
      let (r, t) = perform_all ops (begin (script x.exchanges)) in
      (r ≡ value x.result)
      × (t.world.reactor.calls ≡ start_call ∷ calls_in x.exchanges)
      × (view t.heap t.cursors ≡ x.spec.ids)
      × (t.events ≡ [])
unfolding Same
perform_all-spec_perform_all S ops st =
    let a : Spec S = record { ids = []; service = st } in
    let x = spec_perform_all S ops a in
    let (r, t, run, same, ran, shows) =
      perform_all-Does S ops [] (begin (script x.exchanges)) a
        (record { valid = record { bounded = tt; distinct = tt }; quiet = refl; ids = refl })
        (sym (append-nil _)) in
    rw run (ap value same, ran.calls, shows.ids, ran.events)
