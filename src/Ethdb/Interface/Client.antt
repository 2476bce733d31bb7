-- ===== src/Ethdb/Interface/Client.antt =====
-- A client of a database: the cursors that it gets of one transaction by table, and the calls that
-- it makes of them.
use silkoroutine.Common.{
  ℕ, Bytes, List, [], ◌∷◌, ◌++◌, Option, none, some, ◌≡◌, refl, get_elem?, All, All-append,
  All-get_elem?, All-weaken, Option-cases, inl, inr,
}
use silkoroutine.Ethdb.Session.{Result, value, thrown, undefined, suspended}
use silkoroutine.Ethdb.Interface.{Cursor, Transaction, Database}
use silkoroutine.Ethdb.Interface.Closing.{Use, after, ClosesCursors}

-- `asks table` is `cursor(table)`; `uses k u` uses the cursor that was got after `k` others.
pub data ClientCall : Type 0 where
  asks : Bytes → ClientCall
  uses : ℕ → Use → ClientCall

-- The cursors got so far, in order.
abbrev pub Got : Type 0 → Type 0
Got S = List (Cursor S)

abbrev pub got : {S : Type 0} → Got S → Result (Cursor S) × S → Got S × S
got cs (value c, s) = (cs ++ c ∷ [], s)
got cs (_, s) = (cs, s)

abbrev pub used : {S : Type 0} → Use → Option (Cursor S) → S → S
used u none s = s
used u (some c) s = after u c s

-- A client that takes no cursor from `cursor()` and does not close the transaction in between. It
-- goes on after an exception.
unfoldable pub run_client : {S : Type 0} → Transaction S → List ClientCall → Got S × S → Got S × S
run_client tx [] (cs, s) = (cs, s)
run_client tx (asks table ∷ calls) (cs, s) = run_client tx calls (got cs (tx.cursor_for table s))
run_client tx (uses k u ∷ calls) (cs, s) = run_client tx calls (cs, used u (get_elem? cs k) s)

module _ {S : Type 0} (kv_db : Database S) (laws : ClosesCursors kv_db) where
  abbrev AllHeld : Transaction S → Got S × S → Type 0
  AllHeld tx (cs, s) = All (λ c. laws.Holds tx c s) cs

  asked-AllHeld :
      (tx : Transaction S) (table : Bytes) (cs : Got S) (s : S) (r : Result (Cursor S) × S)
      → laws.Begun tx
      → tx.cursor_for table s ≡ r
      → All (λ c. laws.Holds tx c r.1) cs
      → AllHeld tx (got cs r)
  asked-AllHeld tx table cs s (value c, t) b e h =
      All-append (λ x. laws.Holds tx x t) cs (c ∷ []) h (laws.gives tx table s t c b e, tt)
  asked-AllHeld tx table cs s (thrown x, t) b e h = h
  asked-AllHeld tx table cs s (undefined, t) b e h = h
  asked-AllHeld tx table cs s (suspended, t) b e h = h

  used-AllHeld :
      (tx : Transaction S) (cs : Got S) (s : S) (k : ℕ) (u : Use)
      → AllHeld tx (cs, s)
      → AllHeld tx (cs, used u (get_elem? cs k) s)
  used-AllHeld tx cs s k u h = elim (Option-cases (get_elem? cs k)) [
    | inl e ↦ rw e h
    | inr (c', e) ↦
        let mine : laws.Holds tx c' s = All-get_elem? (λ c. laws.Holds tx c s) cs k c' e h in
        rw e (
          All-weaken (λ c. laws.Holds tx c s) (λ c. laws.Holds tx c (after u c' s)) cs
            (λ c i. laws.holds tx c c' s u i mine) h)
  ]

  run_client-AllHeld :
      (tx : Transaction S) (calls : List ClientCall) (cs : Got S) (s : S)
      → laws.Begun tx
      → AllHeld tx (cs, s)
      → AllHeld tx (run_client tx calls (cs, s))
  unfolding run_client
  run_client-AllHeld tx [] cs s b h = h
  run_client-AllHeld tx (asks table ∷ calls) cs s b h =
      let r = tx.cursor_for table s in
      let k : All (λ c. laws.Holds tx c r.1) cs =
        All-weaken (λ c. laws.Holds tx c s) (λ c. laws.Holds tx c r.1) cs
          (λ c. laws.holds_cursor_for tx c table s) h in
      run_client-AllHeld tx calls (got cs r).0 (got cs r).1 b
        (asked-AllHeld tx table cs s r b refl k)
  run_client-AllHeld tx (uses i u ∷ calls) cs s b h =
      run_client-AllHeld tx calls cs (used u (get_elem? cs i) s) b (used-AllHeld tx cs s i u h)

  -- Whatever such a client does with a transaction of the database and with the cursors that it
  -- gets by table: when it closes the transaction at last, and that returns, every cursor that it
  -- got is closed.
  pub close-run_client :
      (calls : List ClientCall) (s t v : S) (tx : Transaction S)
      → kv_db.begin s ≡ (value tx, t)
      → tx.close (run_client tx calls ([], t)).1 ≡ (value tt, v)
      → All (λ c. c.cursor_id v ≡ (value 0, v)) (run_client tx calls ([], t)).0
  close-run_client calls s t v tx e closed =
      let x = run_client tx calls ([], t) in
      let b : laws.Begun tx = laws.begins s t tx e in
      All-weaken (λ c. laws.Holds tx c x.1) (λ c. c.cursor_id v ≡ (value 0, v)) x.0
        (λ c h. laws.closes tx c x.1 v h closed) (run_client-AllHeld tx calls [] t b tt)
