-- ===== src/Cmd/KvSeekCoroutines/Served.antt =====
-- The program against a KV service, with which one exchange may fail.
use silkoroutine.Common.{
  ℕ, Bytes, List, [], ◌∷◌, ◌++◌, pos, Option, append_assoc, some, ◌≡◌, refl, sym, ap, subst, ◌∙◌,
  append-nil,
}
use silkoroutine.Util.{KeyValue}
use silkoroutine.Remote.{Pair, seek_message}
use silkoroutine.Kv.Reactor.{start_call}
use silkoroutine.Kv.Exec.{Event}
use silkoroutine.Kv.Awaitables.{Request, async_seek}
use silkoroutine.Ethdb.Session.{value, Session, Result, begin, pure, ◌>>◌}
use silkoroutine.Ethdb.Session.Any.{continue-eq-value}
use silkoroutine.Ethdb.RemoteCursor.{key_value, seek_key}
use silkoroutine.Ethdb.RemoteCursor.Answered.{seek_key-answered}
use silkoroutine.Ethdb.RemoteTransaction
use silkoroutine.Ethdb.RemoteTransaction.{cursor_for}
use silkoroutine.Ethdb.Service.{
  Service, Spec, Step, Exchanges, ask, after, give, perform, close_op, spec_cursor, spec_perform,
}
use silkoroutine.Ethdb.Service.Exchanges.{script, script-append, calls_in, Ran, Ran-one, Ran-trans}
use silkoroutine.Ethdb.Service.Cursors.{Shows, Shows-same, cursor-Does}
use silkoroutine.Ethdb.Service.Refines.{perform-Does}
use silkoroutine.Kv.Exchange.{answered, read_error, write_error}
use silkoroutine.Ethdb.Service.Faults.{
  Fault, not_written, not_read, unfinished, failing, result_of, calls_made, Breaks, continue-Breaks,
  bind-Breaks,
}
use silkoroutine.Ethdb.Service.Faults.Cursors.{seek_key-Breaks, cursor_for-Breaks}
use silkoroutine.Ethdb.Service.Faults.Stops.{close-Breaks}
use silkoroutine.Ethdb.Interface.Remote.{Sessions, remote_database}
use silkoroutine.Cmd.KvFlags.{Flags, check_timeout}
use silkoroutine.Cmd.KvSeekCoroutines.{
  End, exited, kv_seek, before_begin, main, ending, uncaught, hangs,
}
use silkoroutine.Cmd.KvSeekCoroutines.Within.{with_cursor, in_session, kv_seek-in_session}

module _ (S : Service) where
  -- What the program is to do with the service: the table is opened, the key is sought with the id
  -- that this gives, and the transaction is closed.
  unfoldable pub spec_seek : Bytes → Bytes → Spec S → Step S (ℕ × KeyValue)
  unfolding spec_cursor spec_perform
  spec_seek table key a = after S (spec_cursor S table a) λ id b.
      after S (ask S (async_seek id key) (seek_message id key) b)
        λ p c. after S (spec_perform S close_op c) λ _ d. give S (id, key_value p) d

  in_session-Breaks :
      (table key : Bytes) (s : Session) (a : Spec S)
      → Shows S a s
      → Breaks (in_session table key) (spec_seek table key a).exchanges s
  unfolding spec_seek spec_perform
  in_session-Breaks table key s a v =
      let x = spec_cursor S table a in
      let id : ℕ = x.result in
      let (p, st) = S.answer (seek_message id key) x.spec.service in
      let b : Spec S = record (x.spec) { service = st } in
      let closes = spec_perform S close_op b in
      subst
        (λ (ys : Exchanges).
          Breaks (in_session table key) (x.exchanges ++ (async_seek id key, p) ∷ ys) s)
        (sym (append-nil closes.exchanges))
        (bind-Breaks (cursor_for table) (with_cursor key) x.exchanges
          ((async_seek id key, p) ∷ closes.exchanges) s (cursor_for-Breaks S table s a v)
          λ rest ev.
            let (c, t, run, held, ran, shows) = cursor-Does S table rest s a v ev in
            let sought : Breaks (λ u. with_cursor key c u)
                ((async_seek id key, p) ∷ closes.exchanges) t =
              λ es r q fs k rest' h ev'.
                let (w, run', calls, events) =
                  bind-Breaks {B = ℕ × KeyValue} (seek_key c key)
                    (λ kv. RemoteTransaction.close >> pure (id, kv)) ((async_seek id key, p) ∷ [])
                    closes.exchanges t (seek_key-Breaks c p t shows.quiet id held key)
                    (λ rest'' ev''.
                      let (u, run'', spoke, heap) =
                        seek_key-answered c p rest'' t shows.quiet id key held ev'' in
                      (
                        key_value p,
                        u,
                        run'',
                        Ran-one spoke,
                        continue-Breaks {B = ℕ × KeyValue} RemoteTransaction.close
                            (λ _. pure (id, key_value p)) closes.exchanges u
                            (close-Breaks S u b
                              (Shows-same S x.spec st t u heap spoke.cursors spoke.posted shows)),
                      ))
                    es r q fs k rest' h ev' in
                (w, rw held run', calls, events) in
            (c, t, run, ran, sought))

  close-Ran :
      (rest : List (List Event)) (s : Session) (a : Spec S)
      → Shows S a s
      → s.events ≡ script (spec_perform S close_op a).exchanges ++ rest
      → (t : Session) × (RemoteTransaction.close s ≡ (value tt, t))
        × Ran (spec_perform S close_op a).exchanges rest s t
  unfolding perform
  close-Ran rest s a v ev =
      let (_, t, run, _, ran, _) = perform-Does S close_op rest s a v ev in
      let (_, u, closed, same) = continue-eq-value _ (RemoteTransaction.close s) run in
      (t, closed ∙ ap (λ (y : Result (Option KeyValue) × Session). (value tt, y.1)) same, ran)

  in_session-Does :
      (table key : Bytes) (rest : List (List Event)) (s : Session) (a : Spec S)
      → Shows S a s
      → s.events ≡ script (spec_seek table key a).exchanges ++ rest
      → (t : Session) × (in_session table key s ≡ (value (spec_seek table key a).result, t))
        × Ran (spec_seek table key a).exchanges rest s t
  unfolding spec_seek spec_perform
  in_session-Does table key rest s a v ev =
      let x = spec_cursor S table a in
      let (p, st) = S.answer (seek_message x.result key) x.spec.service in
      let b : Spec S = record (x.spec) { service = st } in
      let closes = spec_perform S close_op b in
      let (c, t, run, held, ran, shows) =
        cursor-Does S table
          (answered (async_seek x.result key) p ∷ (script closes.exchanges ++ rest)) s a v
          (ev ∙ simp (script-append, append_assoc, append-nil) refl) in
      let (u, run', spoke, heap) =
        seek_key-answered c p (script closes.exchanges ++ rest) t shows.quiet x.result key held
          ran.events in
      let (w, run'', ran'') =
        close-Ran rest u b (Shows-same S x.spec st t u heap spoke.cursors spoke.posted shows)
          spoke.events in
      (
        w,
        rw (run, held) (rw run' (rw run'' refl)),
        subst (λ (ys : Exchanges). Ran (x.exchanges ++ (async_seek x.result key, p) ∷ ys) rest s w)
            (sym (append-nil closes.exchanges)) (Ran-trans ran (Ran-trans (Ran-one spoke) ran'')),
      )

-- How far the program comes where the exchange of the request `r` does not come to its end.
abbrev pub end_of : Fault → Request → End
end_of not_written r = uncaught (write_error r)
end_of (not_read p) r = uncaught (read_error r)
end_of (unfinished k) r = hangs

ending-result_of :
    (k : Fault) (r : Request) → ending (result_of {A = ℕ × KeyValue} k r) ≡ end_of k r
ending-result_of not_written r = refl
ending-result_of (not_read p) r = refl
ending-result_of (unfinished k) r = refl

main-in_session :
    (f : Flags) (key : Bytes) (events : List (List Event))
    → check_timeout f ≡ some key
    → let (r, t) = in_session f.table key (begin events) in
      main f events ≡ (ending r, record { begun = t ∷ []; to_come = [] })
unfolding main
main-in_session f key events h =
    rw (h, main)
      (ap (λ (x : Result (ℕ × KeyValue) × Sessions). (ending x.0, x.1))
        (kv_seek-in_session f.table key events))

-- With good flags, and any KV service, of which the seek makes the exchanges `es`, then one with
-- the request `r`, and then others: where the message of that request is not written, or its answer
-- is not read, a callback lets out the exception that names the request and what failed, and the
-- program does not catch it; where no more is heard of the request, the program hangs. In no case
-- it comes to an exit code. It has begun one transaction, has started its call and has made just
-- the calls of `es` and those of that request.
pub main-interrupted :
    (S : Service) (f : Flags) (key : Bytes) (st : S.State) (es : Exchanges) (r : Request) (p : Pair)
    (fs : Exchanges) (k : Fault) (rest : List (List Event))
    → check_timeout f ≡ some key
    → (spec_seek S f.table key (record { ids = []; service = st })).exchanges ≡ es ++ (r, p) ∷ fs
    → (t : Session) × (main f (script es ++ failing k r ∷ rest)
        ≡ (end_of k r, record { begun = t ∷ []; to_come = [] }))
      × (t.world.reactor.calls ≡ start_call ∷ (calls_in es ++ calls_made k r))
main-interrupted S f key st es r p fs k rest h e =
    let events = script es ++ failing k r ∷ rest in
    let (t, run, calls, _) =
      in_session-Breaks S f.table key (begin events) (record { ids = []; service = st })
        (record { valid = record { bounded = tt; distinct = tt }; quiet = refl; ids = refl }) es r p
        fs k rest e refl in
    (
      t,
      main-in_session f key events h
          ∙ rw run (ap (λ x. (x, record { begun = t ∷ []; to_come = [] })) (ending-result_of k r)),
      calls,
    )

-- With good flags, and any KV service that answers every message, also one that gives a cursor the
-- id 0: the seek comes to the id and the pair that the specification has, and the program returns
-- 0. It has begun one transaction, has started its call, has made just the specification's
-- exchanges, and waits for nothing more.
pub main-spec_seek :
    (S : Service) (f : Flags) (key : Bytes) (st : S.State)
    → check_timeout f ≡ some key
    → let x = spec_seek S f.table key (record { ids = []; service = st }) in
      (t : Session) × (kv_seek remote_database f.table key (before_begin (script x.exchanges))
        ≡ (value x.result, record { begun = t ∷ []; to_come = [] }))
      × (main f (script x.exchanges) ≡ (exited (pos 0), record { begun = t ∷ []; to_come = [] }))
      × (t.world.reactor.calls ≡ start_call ∷ calls_in x.exchanges)
      × (t.events ≡ [])
main-spec_seek S f key st h =
    let a : Spec S = record { ids = []; service = st } in
    let events = script (spec_seek S f.table key a).exchanges in
    let (t, run, ran) =
      in_session-Does S f.table key [] (begin events) a
        (record { valid = record { bounded = tt; distinct = tt }; quiet = refl; ids = refl })
        (sym (append-nil _)) in
    (
      t,
      kv_seek-in_session f.table key events ∙ rw run refl,
      main-in_session f key events h ∙ rw run refl,
      ran.calls,
      ran.events,
    )
