-- ===== src/Ethdb/Database/Queue.antt =====
-- What one transaction has to do with the database: its part of the queue, and of the events.
use silkoroutine.Common.{
  ℕ, true, false, List, [], ◌∷◌, ◌++◌, ◌≡◌, refl, ap, ◌==◌, ==_iff, ltb, if◌then◌else◌, Bool-cases,
  inl, inr,
}
use silkoroutine.Kv.World.{World, Command, Outcome, ok, raised, fault}
use silkoroutine.Kv.Exec.{◌>>=◌}
use silkoroutine.Kv.Exec
use silkoroutine.Kv.Alone.{OwnEvent, own_start, own}
use silkoroutine.Ethdb.Database.{
  RemoteDatabase, tagged, SharedEvent, begins, starts, write_done, read_done, done, run_one,
  deliver_shared,
}

abbrev pub commands_of : ℕ → List (ℕ × Command) → List Command
commands_of i [] = []
commands_of i ((j, c) ∷ q) = if j == i then c ∷ commands_of i q else commands_of i q

-- The transaction `i`, as if the queue held its own handlers only.
abbrev pub view : ℕ → RemoteDatabase → World
view i d = record (d.transactions i) { posted = commands_of i d.queue }

-- `o`, which is an event of the transaction `j`, if it is one of `i`.
abbrev pub if_own : ℕ → ℕ → OwnEvent → List OwnEvent
if_own i j o = if j == i then o ∷ [] else []

abbrev pub first_own : ℕ → List (ℕ × Command) → List OwnEvent
first_own i [] = []
first_own i ((j, c) ∷ q) = if_own i j (own Exec.run_one)

abbrev pub if_own_begun : ℕ → ℕ → OwnEvent → RemoteDatabase → List OwnEvent
if_own_begun i j o d = if ltb j d.begun then if_own i j o else []

-- What an event of the database is for the transaction `i`.
unfoldable pub share_of : ℕ → SharedEvent → RemoteDatabase → List OwnEvent
share_of i begins d = []
share_of i (starts j r h) d = if_own_begun i j (own_start r h) d
share_of i (write_done j b) d = if_own_begun i j (own (Exec.write_done b)) d
share_of i (read_done j b p) d = if_own_begun i j (own (Exec.read_done b p)) d
share_of i (done j b) d = if_own_begun i j (own (Exec.done b)) d
share_of i run_one d = first_own i d.queue

abbrev pub onward : (RemoteDatabase → List OwnEvent) → Outcome RemoteDatabase → List OwnEvent
onward f (ok d) = f d
onward f (raised e d) = []
onward f fault = []

-- What a run of the database is for the transaction `i`.
unfoldable pub share : ℕ → List SharedEvent → RemoteDatabase → List OwnEvent
unfolding share_of
share i [] d = []
share i (e ∷ es) d = share_of i e d ++ onward (share i es) (deliver_shared e d)

pub commands_of-append :
    (i : ℕ) (p q : List (ℕ × Command)) → commands_of i (p ++ q) ≡ commands_of i p ++ commands_of i q
commands_of-append i [] q = refl
commands_of-append i ((j, c) ∷ p) q = elim (Bool-cases (j == i)) [
  | inl same ↦ simp same (ap (◌∷◌ c) (commands_of-append i p q))
  | inr other ↦ simp other (commands_of-append i p q)
]

pub commands_of-tagged : (i : ℕ) (cs : List Command) → commands_of i (tagged i cs) ≡ cs
commands_of-tagged i [] = refl
commands_of-tagged i (c ∷ cs) =
    let self : (i == i) ≡ true = (==_iff i i).1 refl in
    simp self (ap (◌∷◌ c) (commands_of-tagged i cs))

pub commands_of-tagged_other :
    (i j : ℕ) (cs : List Command) → (j == i) ≡ false → commands_of i (tagged j cs) ≡ []
commands_of-tagged_other i j [] h = refl
commands_of-tagged_other i j (c ∷ cs) h = simp h (commands_of-tagged_other i j cs h)
