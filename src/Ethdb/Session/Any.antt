-- ===== src/Ethdb/Session/Any.antt =====
-- Coroutines whatever the environment does: taking a block apart that returned a value.
use silkoroutine.Common.{ℕ, ◌≡◌, refl}
use silkoroutine.Kv.World.{World, Outcome, ok, raised, fault, Payload, id, pair}
use silkoroutine.Kv.Awaitables.{Request}
use silkoroutine.Ethdb.Session.{
  Session, Coroutine, Routine, Result, value, thrown, undefined, suspended, continue, await,
  await_id, await_pair, resume, as_id, as_pair,
}

-- A block that returned a value is one whose first part did.
pub continue-eq-value {ℓ κ} :
    {S : Type 0} {A : Type ℓ} {B : Type κ} (f : A → Routine S B) (r : Result A × S) {b : B} {t : S}
    → continue f r ≡ (value b, t)
    → (a : A) × (s : S) × (r ≡ (value a, s)) × (f a s ≡ (value b, t))
continue-eq-value f (value a, s) h = (a, s, refl, h)
continue-eq-value f (thrown e, s) h = cc
continue-eq-value f (undefined, s) h = cc
continue-eq-value f (suspended, s) h = cc

-- What the first part of a block and the rest of it keep, the block keeps.
pub continue-keeps {ℓ κ} :
    {A : Type ℓ} {B : Type κ} (K : Session → Type 0) (f : A → Coroutine B) (r : Result A × Session)
    → K r.1
    → ((a : A) (s : Session) → K s → K (f a s).1)
    → K (continue f r).1
continue-keeps K f (value a, s) h k = k a s h
continue-keeps K f (thrown e, s) h k = h
continue-keeps K f (undefined, s) h k = h
continue-keeps K f (suspended, s) h k = h

-- The same where the rest of a block goes over from one property to another.
pub continue-leads {ℓ κ} :
    {A : Type ℓ} {B : Type κ} (K P : Session → Type 0) (f : A → Coroutine B)
    (r : Result A × Session)
    → K r.1
    → ((s : Session) → K s → P s)
    → ((a : A) (s : Session) → K s → P (f a s).1)
    → P (continue f r).1
continue-leads K P f (value a, s) h l k = k a s h
continue-leads K P f (thrown e, s) h l k = l s h
continue-leads K P f (undefined, s) h l k = l s h
continue-leads K P f (suspended, s) h l k = l s h

-- The cursors are as they were.
pub record Untouched (s t : Session) : Type 0 where
  pub heap : t.heap ≡ s.heap
  pub cursors : t.cursors ≡ s.cursors

resume-Untouched : (h : ℕ) (s : Session) (m : Outcome World) → Untouched s (resume h s m).1
resume-Untouched h s (ok w) = record { heap = refl; cursors = refl }
resume-Untouched h s (raised e w) = record { heap = refl; cursors = refl }
resume-Untouched h s fault = record { heap = refl; cursors = refl }

-- A wait changes no cursor, whatever happens during it.
pub await-Untouched : (r : Request) (s : Session) → Untouched s (await r s).1
unfolding await
await-Untouched r s =
    let u = resume-Untouched _ (record s { events = _ }) _ in
    record { heap = u.heap; cursors = u.cursors }

as_id-Untouched :
    (s : Session) (p : Payload) (t : Session) → Untouched s t → Untouched s (as_id p t).1
as_id-Untouched s (id n) t u = u
as_id-Untouched s _ t u = u

as_pair-Untouched :
    (s : Session) (p : Payload) (t : Session) → Untouched s t → Untouched s (as_pair p t).1
as_pair-Untouched s (pair p) t u = u
as_pair-Untouched s _ t u = u

pub await_id-Untouched : (r : Request) (s : Session) → Untouched s (await_id r s).1
await_id-Untouched r s =
    continue-keeps (Untouched s) as_id (await r s) (await-Untouched r s) (as_id-Untouched s)

pub await_pair-Untouched : (r : Request) (s : Session) → Untouched s (await_pair r s).1
await_pair-Untouched r s =
    continue-keeps (Untouched s) as_pair (await r s) (await-Untouched r s) (as_pair-Untouched s)
