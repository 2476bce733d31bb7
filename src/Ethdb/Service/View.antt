-- ===== src/Ethdb/Service/View.antt =====
-- The ids of a transaction's tables, read through the map and the heap of cursors.
use silkoroutine.Common.{
  ℕ, zero, suc, ◌<◌, Bytes, List, [], ◌∷◌, ◌++◌, none, some, ◌≡◌, refl, length, get_elem?, set,
  arith,
}
use silkoroutine.Ethdb.TableMap.{TableMap, find, insert}
use silkoroutine.Ethdb.RemoteTransaction.Invariant.{Below, Apart}
use silkoroutine.Ethdb.RemoteTransaction.Termination.{id_at, get_elem?-set_apart}

abbrev pub view : List ℕ → TableMap ℕ → TableMap ℕ
view heap [] = []
view heap ((table, a) ∷ m) = (table, id_at (get_elem? heap a)) ∷ view heap m

pub find-view-none :
    (heap : List ℕ) (table : Bytes) (m : TableMap ℕ)
    → find table m ≡ none
    → find table (view heap m) ≡ none
unfolding find
find-view-none heap table [] h = refl
find-view-none heap table ((j, a) ∷ m) h = ground (arith, find-view-none heap table m)

pub find-view-some :
    (heap : List ℕ) (table : Bytes) (m : TableMap ℕ) (a : ℕ)
    → find table m ≡ some a
    → find table (view heap m) ≡ some (id_at (get_elem? heap a))
unfolding find
find-view-some heap table [] a h = cc
find-view-some heap table ((j, b) ∷ m) a h = ground (arith, find-view-some heap table m a)

-- A table that is in the map has a cursor that exists.
pub find-lt :
    (n : ℕ) (table : Bytes) (m : TableMap ℕ) (a : ℕ) → Below n m → find table m ≡ some a → a < n
unfolding find
find-lt n table [] a b h = cc
find-lt n table ((j, c) ∷ m) a b h = ground (arith, find-lt n table m a b.1)

get_elem?-append_lt :
    (xs : List ℕ) (x i : ℕ) → i < length xs → get_elem? (xs ++ x ∷ []) i ≡ get_elem? xs i
get_elem?-append_lt [] x i h = elim h [ ]
get_elem?-append_lt (y ∷ xs) x zero h = refl
get_elem?-append_lt (y ∷ xs) x (suc i) h = get_elem?-append_lt xs x i (omega arith)

-- A new cursor changes the ids of no other.
pub view_grown :
    (heap : List ℕ) (n : ℕ) (m : TableMap ℕ)
    → Below (length heap) m
    → view (heap ++ n ∷ []) m ≡ view heap m
view_grown heap n [] b = refl
view_grown heap n ((table, a) ∷ m) (h, b) =
    rw (get_elem?-append_lt heap n a h, view_grown heap n m b)

pub view-insert :
    (heap : List ℕ) (table : Bytes) (a : ℕ) (m : TableMap ℕ)
    → view heap (insert table a m) ≡ insert table (id_at (get_elem? heap a)) (view heap m)
unfolding insert
view-insert heap table a [] = refl
view-insert heap table a ((j, b) ∷ m) = ground (arith, view-insert heap table a m)

-- A cursor that is closed changes the ids of no other.
pub view-set :
    (heap : List ℕ) (a : ℕ) (m : TableMap ℕ) → Apart a m → view (set heap a 0) m ≡ view heap m
view-set heap a [] h = refl
view-set heap a ((table, b) ∷ m) h = rw (get_elem?-set_apart heap a b 0 h.0, view-set heap a m h.1)
