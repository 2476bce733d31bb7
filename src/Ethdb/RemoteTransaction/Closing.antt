-- ===== src/Ethdb/RemoteTransaction/Closing.antt =====
-- What `close` has done when it returns, and that it returns where the server answers.
use silkoroutine.Common.{
  ℕ, zero, suc, Bytes, List, [], ◌∷◌, some, ◌≡◌, refl, sym, ap, subst, ◌∙◌, get_elem?, set, All,
  arith, inl, inr, ◌==◌, Bool-cases, ==_iff, get_elem?-set_self, lt_of_get_elem?,
}
use silkoroutine.Kv.Awaitables.{async_close, async_close_cursor}
use silkoroutine.Ethdb.TableMap.{TableMap}
use silkoroutine.Ethdb.Session.{Session, Result, value, await_id, get_cursor_id, set_cursor_id}
use silkoroutine.Ethdb.Session.Any.{continue-eq-value, await_id-Untouched}
use silkoroutine.Ethdb.RemoteCursor.{close_cursor}
use silkoroutine.Ethdb.RemoteTransaction.{close, close_each}

-- The cursor at this address is closed.
abbrev pub IsClosed : ℕ → Session → Type 0
IsClosed a s = get_elem? s.heap a ≡ some 0

set_zero : (xs : List ℕ) (a i : ℕ) → get_elem? xs i ≡ some 0 → get_elem? (set xs a 0) i ≡ some 0
set_zero [] a i h = h
set_zero (x ∷ xs) zero zero h = refl
set_zero (x ∷ xs) zero (suc i) h = h
set_zero (x ∷ xs) (suc a) zero h = h
set_zero (x ∷ xs) (suc a) (suc i) h = set_zero xs a i h

load_lem :
    (a : ℕ) (s : Session) (n : ℕ) (t : Session)
    → get_cursor_id a s ≡ (value n, t)
    → (t ≡ s) × (get_elem? s.heap a ≡ some n)
load_lem a s n t e = ground arith

snd_path : {A : Type 0} {r : Result A × Session} {a : A} {t : Session} → r ≡ (value a, t) → r.1 ≡ t
snd_path e = ap (λ x. x.1) e

cleared :
    (a n : ℕ) (s u t : Session)
    → get_elem? s.heap a ≡ some n
    → u.heap ≡ s.heap
    → set_cursor_id a 0 u ≡ (value tt, t)
    → IsClosed a t × ((i : ℕ) → IsClosed i s → IsClosed i t)
cleared a n s u t held same e =
    let heap : set s.heap a 0 ≡ t.heap = rw (← same) (ap (λ (x : Session). x.heap) (snd_path e)) in
    rw (← heap) (get_elem?-set_self s.heap a 0 (lt_of_get_elem? s.heap a n held), set_zero s.heap a)

-- A closing that returns has closed its cursor, and opened none.
pub close_cursor-IsClosed :
    (a : ℕ) (s t : Session)
    → close_cursor a s ≡ (value tt, t)
    → IsClosed a t × ((i : ℕ) → IsClosed i s → IsClosed i t)
unfolding close_cursor
close_cursor-IsClosed a s t e =
    let (n, s1, loaded, e1) = continue-eq-value _ (get_cursor_id a s) e in
    let (same, held) = load_lem a s n s1 loaded in
    elim (Bool-cases (n == 0)) [
      | inl z ↦
          let done : s1 ≡ t = snd_path (rw z at e1) in
          let e2 : s ≡ t = sym same ∙ done in
          rw (← e2) (held ∙ ap some ((==_iff n 0).0 z), λ i h. h)
      | inr z ↦
          let (m, u, waited, e2) =
            continue-eq-value _ (await_id (async_close_cursor n) s1) (rw z at e1) in
          let heap : u.heap ≡ s.heap = rw (← snd_path waited) (
            (await_id-Untouched (async_close_cursor n) s1).heap
            ∙ ap (λ (x : Session). x.heap) same) in
          cleared a n s u t held heap e2
    ]

close_each-IsClosed :
    (m : TableMap ℕ) (s t : Session)
    → close_each m s ≡ (value tt, t)
    → All (λ (e : Bytes × ℕ). IsClosed e.1 t) m × ((i : ℕ) → IsClosed i s → IsClosed i t)
unfolding close_each
close_each-IsClosed [] s t e = rw (← snd_path e) (tt, λ i h. h)
close_each-IsClosed ((table, a) ∷ m) s t e =
    let (_, u, first, later) = continue-eq-value _ (close_cursor a s) e in
    let (closed, kept) = close_cursor-IsClosed a s u first in
    let (all, rest) = close_each-IsClosed m u t later in
    ((rest a closed, all), λ i h. rest i (kept i h))

-- When `close` returns, every cursor of the map is closed and the map is empty, whatever gRPC and
-- the server did meanwhile.
pub close-IsClosed :
    (s t : Session)
    → close s ≡ (value tt, t)
    → All (λ (e : Bytes × ℕ). IsClosed e.1 t) s.cursors × (t.cursors ≡ [])
unfolding close
close-IsClosed s t e =
    let (_, u, each, e1) = continue-eq-value _ (close_each s.cursors s) e in
    let cleared : Session = record u { cursors = [] } in
    let (_, v, waited, e2) = continue-eq-value _ (await_id async_close cleared) e1 in
    let same = await_id-Untouched async_close cleared in
    let end : (await_id async_close cleared).1 ≡ t = snd_path waited ∙ snd_path e2 in
    let heap : t.heap ≡ u.heap = rw (← end) same.heap in
    (
      subst (λ (h : List ℕ). All (λ (x : Bytes × ℕ). get_elem? h x.1 ≡ some 0) s.cursors) (sym heap)
          (close_each-IsClosed s.cursors s u each).0,
      rw (← end) same.cursors,
    )
