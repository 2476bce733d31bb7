-- ===== src/Ethdb/Service/Cursors.antt =====
-- The cursor of a table, which is opened on its first use, and the id that the specification has.
use silkoroutine.Common.{
  ℕ, Bytes, List, [], ◌∷◌, ◌++◌, none, some, ◌≡◌, refl, sym, ap, ◌∙◌, length, get_elem?,
  get_elem?-append_last, append-nil, Option-cases, inl, inr,
}
use silkoroutine.Remote.{open_message}
use silkoroutine.Kv.Exec.{Event}
use silkoroutine.Kv.Awaitables.{async_open_cursor}
use silkoroutine.Kv.Exchange.{answered}
use silkoroutine.Ethdb.TableMap.{find, insert}
use silkoroutine.Ethdb.Session.{Session, Coroutine, value}
use silkoroutine.Ethdb.RemoteTransaction.{cursor_for}
use silkoroutine.Ethdb.RemoteTransaction.Invariant.{IsValid}
use silkoroutine.Ethdb.RemoteTransaction.Sharing.{cursor_for_new}
use silkoroutine.Ethdb.RemoteTransaction.Termination.{id_at, get_elem?-lt}
use silkoroutine.Ethdb.Service.{Service, Spec, Step, spec_cursor}
use silkoroutine.Ethdb.Service.View.{
  view, find-view-none, find-view-some, find-lt, view_grown, view-insert,
}
use silkoroutine.Ethdb.Service.Exchanges.{script, Ran, cursor_for-result}

unfoldable pub Same : {A : Type 0} → A → A → Session → Type 0
Same x r t = r ≡ x

module _ (S : Service) where
  -- A session shows the specification's state: its ids are those that the map leads to.
  pub record Shows (a : Spec S) (s : Session) : Type 0 where
    pub valid : IsValid s
    pub quiet : s.world.posted ≡ []
    pub ids : view s.heap s.cursors ≡ a.ids

  pub spec_cursor_known :
      (table : Bytes) (a : Spec S) (id : ℕ)
      → find table a.ids ≡ some id
      → spec_cursor S table a ≡ record { result = id; exchanges = []; spec = a }
  unfolding spec_cursor
  spec_cursor_known table a id e = rw (e, spec_cursor) refl

  pub spec_cursor_new :
      (table : Bytes) (a : Spec S)
      → find table a.ids ≡ none
      → let p = (S.answer (open_message table) a.service).0 in
        spec_cursor S table a ≡ record {
          result = p.cursorid;
          exchanges = (async_open_cursor table, p) ∷ [];
          spec = record {
            ids = insert table p.cursorid a.ids;
            service = (S.answer (open_message table) a.service).1;
          };
        }
  unfolding spec_cursor
  spec_cursor_new table a e = rw (e, spec_cursor) refl

  -- A coroutine on a session does what a step of the specification does. The results are related by
  -- `Q`.
  abbrev pub Does :
      {A B : Type 0}
      → (B → A → Session → Type 0)
      → Coroutine A
      → Step S B
      → List (List Event)
      → Session
      → Type 0
  Does {A} Q m x rest s =
      (r : A) × (t : Session) × (m s ≡ (value r, t))
      × Q x.result r t
      × Ran x.exchanges rest s t
      × Shows x.spec t

  abbrev Holds : ℕ → ℕ → Session → Type 0
  Holds id cursor t = get_elem? t.heap cursor ≡ some id

  cursor_known :
      (table : Bytes) (c : ℕ) (rest : List (List Event)) (s : Session) (a : Spec S)
      → Shows a s
      → find table s.cursors ≡ some c
      → s.events ≡ script (spec_cursor S table a).exchanges ++ rest
      → Does Holds (cursor_for table) (spec_cursor S table a) rest s
  unfolding cursor_for
  cursor_known table c rest s a v e ev =
      let (id, held) =
        get_elem?-lt s.heap c (find-lt (length s.heap) table s.cursors c v.valid.bounded e) in
      let known : find table a.ids ≡ some id =
        ap (find table) (sym v.ids)
        ∙ find-view-some s.heap table s.cursors c e
        ∙ ap (λ o. some (id_at o)) held in
      let same = spec_cursor_known table a id known in
      let ev' : s.events ≡ rest = ev ∙ rw same refl in
      rw same (
        c,
        s,
        rw (e, cursor_for) refl,
        held,
        record { calls = sym (append-nil _); events = ev' },
        v,
      )

  cursor_new :
      (table : Bytes) (rest : List (List Event)) (s : Session) (a : Spec S)
      → Shows a s
      → find table s.cursors ≡ none
      → s.events ≡ script (spec_cursor S table a).exchanges ++ rest
      → Does Holds (cursor_for table) (spec_cursor S table a) rest s
  cursor_new table rest s a v e ev =
      let p = (S.answer (open_message table) a.service).0 in
      let same =
        spec_cursor_new table a
          (ap (find table) (sym v.ids) ∙ find-view-none s.heap table s.cursors e) in
      let ev' : s.events ≡ answered (async_open_cursor table) p ∷ rest = ev ∙ rw same refl in
      let (t, run, heap, calls, quiet, events, cursors) =
        cursor_for_new table p rest s v.quiet e ev' in
      let held : get_elem? t.heap (length s.heap) ≡ some p.cursorid =
        rw heap (get_elem?-append_last s.heap p.cursorid) in
      let ids : view t.heap t.cursors ≡ insert table p.cursorid a.ids = rw cursors (
        view-insert t.heap table (length s.heap) s.cursors
        ∙ rw held (
            rw heap (
              ap (insert table p.cursorid)
                (view_grown s.heap p.cursorid s.cursors v.valid.bounded ∙ v.ids)))) in
      rw same (
        length s.heap,
        t,
        run,
        held,
        record { calls = simp (calls, append-nil) refl; events = events },
        record { valid = cursor_for-result table s t run v.valid; quiet = quiet; ids = ids },
      )

  pub cursor-Does :
      (table : Bytes) (rest : List (List Event)) (s : Session) (a : Spec S)
      → Shows a s
      → s.events ≡ script (spec_cursor S table a).exchanges ++ rest
      → Does Holds (cursor_for table) (spec_cursor S table a) rest s
  cursor-Does table rest s a v ev = elim (Option-cases (find table s.cursors)) [
    | inl e ↦ cursor_new table rest s a v e ev
    | inr (c, e) ↦ cursor_known table c rest s a v e ev
  ]

  pub Shows-same :
      (a : Spec S) (st : S.State) (s t : Session)
      → t.heap ≡ s.heap
      → t.cursors ≡ s.cursors
      → t.world.posted ≡ []
      → Shows a s
      → Shows (record a { service = st }) t
  Shows-same a st s t heap cursors quiet v = record {
    valid = record {
      bounded = rw (heap, cursors) v.valid.bounded;
      distinct = rw cursors v.valid.distinct;
    };
    quiet = quiet;
    ids = rw (heap, cursors) v.ids;
  }
