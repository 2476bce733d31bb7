-- ===== src/Ethdb/Service/Faults/Stops.antt =====
-- A transaction with which one exchange fails.
use silkoroutine.Common.{ℕ, List, [], ◌∷◌, ◌++◌, ◌≡◌, refl, sym, ap, subst, append-nil}
use silkoroutine.Remote.{Pair, empty_pair, seek_message, next_message}
use silkoroutine.Kv.Reactor.{start_call}
use silkoroutine.Kv.Exec.{Event}
use silkoroutine.Kv.Awaitables.{Request, async_seek, async_next, async_close}
use silkoroutine.Ethdb.TableMap.{TableMap}
use silkoroutine.Ethdb.Session.{Session, begin}
use silkoroutine.Ethdb.RemoteCursor.{seek_key, next}
use silkoroutine.Ethdb.RemoteTransaction
use silkoroutine.Ethdb.RemoteTransaction.{cursor_for, close_each}
use silkoroutine.Ethdb.Service.{
  Op, open_op, seek_op, next_op, seek_table_op, close_op, perform, perform_all, Service, Exchanges,
  Spec, spec_cursor, spec_close_each, spec_perform, spec_perform_all,
}
use silkoroutine.Ethdb.Service.Exchanges.{script, calls_in}
use silkoroutine.Ethdb.Service.Cursors.{Shows, cursor-Does}
use silkoroutine.Ethdb.Service.Closing.{close_each-Closes, closings_of}
use silkoroutine.Ethdb.Service.Refines.{perform-Does}
use silkoroutine.Ethdb.Service.Faults.{
  Fault, failing, result_of, calls_made, Breaks, nothing-Breaks, await-Breaks, continue-Breaks,
  bind-Breaks, continue-result_of,
}
use silkoroutine.Ethdb.Service.Faults.Seeks.{seek_table-Breaks}
use silkoroutine.Ethdb.Service.Faults.Cursors.{
  seek_key-Breaks, next-Breaks, cursor_for-Breaks, close_each-Breaks,
}

module _ (S : Service) where
  pub close-Breaks :
      (s : Session) (a : Spec S)
      → Shows S a s
      → Breaks RemoteTransaction.close
          ((spec_close_each S a.ids a).exchanges ++ (async_close, empty_pair) ∷ [])
          s
  unfolding RemoteTransaction.close
  close-Breaks s a v =
      let same : closings_of S s.heap s.cursors a ≡ (spec_close_each S a.ids a).exchanges =
        ap (λ (ids : TableMap ℕ). (spec_close_each S ids a).exchanges) v.ids in
      subst
        (λ (x : Exchanges). Breaks RemoteTransaction.close (x ++ (async_close, empty_pair) ∷ []) s)
        same
        (bind-Breaks (close_each s.cursors) _ (closings_of S s.heap s.cursors a)
          ((async_close, empty_pair) ∷ []) s
          (close_each-Breaks S s.cursors s a v.quiet v.valid.bounded v.valid.distinct)
          λ rest ev.
            let (t, run, ran, quiet) =
              close_each-Closes S s.cursors rest s a v.quiet v.valid.bounded v.valid.distinct ev in
            (
              tt,
              t,
              run,
              ran,
              λ es r q fs k rest' h ev'.
                  let (u, run', calls, events) =
                    await-Breaks async_close empty_pair (record t { cursors = [] }) quiet es r q fs
                      k rest' h ev' in
                  (u, rw run' (simp continue-result_of refl), calls, events),
            ))

  perform-Breaks :
      (op : Op) (s : Session) (a : Spec S)
      → Shows S a s
      → Breaks (perform op) (spec_perform S op a).exchanges s
  unfolding perform spec_perform
  perform-Breaks (open_op table) s a v =
      subst (λ (x : Exchanges). Breaks (perform (open_op table)) x s)
        (sym (append-nil (spec_cursor S table a).exchanges))
        (continue-Breaks (cursor_for table) _ (spec_cursor S table a).exchanges s
          (cursor_for-Breaks S table s a v))
  perform-Breaks (seek_op table key) s a v =
      let x = spec_cursor S table a in
      let p = (S.answer (seek_message x.result key) x.spec.service).0 in
      bind-Breaks (cursor_for table) _ x.exchanges ((async_seek x.result key, p) ∷ []) s
        (cursor_for-Breaks S table s a v)
        λ rest ev.
          let (c, t, run, held, ran, shows) = cursor-Does S table rest s a v ev in
          (
            c,
            t,
            run,
            ran,
            continue-Breaks (seek_key c key) _ ((async_seek x.result key, p) ∷ []) t
                (seek_key-Breaks c p t shows.quiet x.result held key),
          )
  perform-Breaks (next_op table) s a v =
      let x = spec_cursor S table a in
      let p = (S.answer (next_message x.result) x.spec.service).0 in
      bind-Breaks (cursor_for table) _ x.exchanges ((async_next x.result, p) ∷ []) s
        (cursor_for-Breaks S table s a v)
        λ rest ev.
          let (c, t, run, held, ran, shows) = cursor-Does S table rest s a v ev in
          (
            c,
            t,
            run,
            ran,
            continue-Breaks (next c) _ ((async_next x.result, p) ∷ []) t
                (next-Breaks c p t shows.quiet x.result held),
          )
  perform-Breaks (seek_table_op table key) s a v = seek_table-Breaks S table key s a v
  perform-Breaks close_op s a v = continue-Breaks RemoteTransaction.close _ _ s (close-Breaks s a v)

  perform_all-Breaks :
      (ops : List Op) (s : Session) (a : Spec S)
      → Shows S a s
      → Breaks (perform_all ops) (spec_perform_all S ops a).exchanges s
  unfolding perform_all spec_perform_all
  perform_all-Breaks [] s a v = nothing-Breaks (perform_all []) s
  perform_all-Breaks (op ∷ ops) s a v =
      let x = spec_perform S op a in
      let y = spec_perform_all S ops x.spec in
      subst (λ (ys : Exchanges). Breaks (perform_all (op ∷ ops)) (x.exchanges ++ ys) s)
        (sym (append-nil y.exchanges))
        (bind-Breaks (perform op) _ x.exchanges y.exchanges s (perform-Breaks op s a v) λ rest ev.
          let (r, t, run, _, ran, shows) = perform-Does S op rest s a v ev in
          (
            r,
            t,
            run,
            ran,
            continue-Breaks (perform_all ops) _ y.exchanges t
                (perform_all-Breaks ops t x.spec shows),
          ))

-- For a KV service and any list of operations, of which the specification makes the exchanges `es`,
-- then one with the request `r`, and then others: where the message of that request is not written,
-- or its answer is not read, the transaction stops there by the exception that names the request
-- and what failed; where no more is heard of the request, it is suspended and is not resumed. It
-- has made of gRPC just the calls of `es` and those of that request, and what would happen
-- afterwards is not waited for.
pub perform_all-stops :
    (S : Service) (ops : List Op) (st : S.State) (es : Exchanges) (r : Request) (p : Pair)
    (fs : Exchanges) (k : Fault) (rest : List (List Event))
    → (spec_perform_all S ops (record { ids = []; service = st })).exchanges ≡ es ++ (r, p) ∷ fs
    → let (result, t) = perform_all ops (begin (script es ++ failing k r ∷ rest)) in
      (result ≡ result_of k r)
      × (t.world.reactor.calls ≡ start_call ∷ (calls_in es ++ calls_made k r))
      × (t.events ≡ rest)
perform_all-stops S ops st es r p fs k rest h =
    let (t, run, calls, events) =
      perform_all-Breaks S ops (begin (script es ++ failing k r ∷ rest))
        (record { ids = []; service = st })
        (record { valid = record { bounded = tt; distinct = tt }; quiet = refl; ids = refl }) es r p
        fs k rest h refl in
    rw run (refl, calls, events)
