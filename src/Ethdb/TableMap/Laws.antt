-- ===== src/Ethdb/TableMap/Laws.antt =====
-- The order of the keys, and what is found after an insertion.
use Prim.Native.Nat.{Ordering}
use silkoroutine.Common.{Bytes, [], ◌∷◌, some, ◌≡◌, ◌≢◌, refl, arith, All}
use silkoroutine.Ethdb.TableMap.{compare_bytes, TableMap, find, insert}

pub compare_bytes_refl : (a : Bytes) → compare_bytes a a ≡ Ordering.eq
unfolding compare_bytes
compare_bytes_refl [] = refl
compare_bytes_refl (x ∷ xs) = ground (arith, compare_bytes_refl xs)

eq_of_compare_bytes : (a b : Bytes) → compare_bytes a b ≡ Ordering.eq → a ≡ b
unfolding compare_bytes
eq_of_compare_bytes [] [] h = refl
eq_of_compare_bytes [] (y ∷ ys) h = cc
eq_of_compare_bytes (x ∷ xs) [] h = cc
eq_of_compare_bytes (x ∷ xs) (y ∷ ys) h = ground (arith, eq_of_compare_bytes xs ys)

lt_trans_bytes :
    (a b c : Bytes)
    → compare_bytes a b ≡ Ordering.lt
    → compare_bytes b c ≡ Ordering.lt
    → compare_bytes a c ≡ Ordering.lt
unfolding compare_bytes
lt_trans_bytes [] [] c h k = cc
lt_trans_bytes [] (y ∷ ys) [] h k = cc
lt_trans_bytes [] (y ∷ ys) (z ∷ zs) h k = refl
lt_trans_bytes (x ∷ xs) [] c h k = cc
lt_trans_bytes (x ∷ xs) (y ∷ ys) [] h k = cc
lt_trans_bytes (x ∷ xs) (y ∷ ys) (z ∷ zs) h k = ground (arith, lt_trans_bytes xs ys zs)

module _ {V : Type 0} where
  pub find-insert_self : (k : Bytes) (v : V) (m : TableMap V) → find k (insert k v m) ≡ some v
  unfolding find insert
  find-insert_self k v [] = rw (compare_bytes_refl k, find)
  find-insert_self k v ((j, w) ∷ m) =
      ground (arith, compare_bytes_refl k, eq_of_compare_bytes k j, find-insert_self k v m)

  -- An insertion is not seen under another key.
  pub find-insert_ne :
      (k j : Bytes) (v : V) (m : TableMap V) → k ≢ j → find j (insert k v m) ≡ find j m
  unfolding find insert
  find-insert_ne k j v [] ne = ground (arith, eq_of_compare_bytes j k)
  find-insert_ne k j v ((i, w) ∷ m) ne = ground (
    arith,
    eq_of_compare_bytes j k,
    eq_of_compare_bytes k i,
    lt_trans_bytes j k i,
    find-insert_ne k j v m,
  )

  pub All-insert :
      (P : V → Type 0) (k : Bytes) (v : V) (m : TableMap V)
      → P v
      → All (λ (e : Bytes × V). P e.1) m
      → All (λ (e : Bytes × V). P e.1) (insert k v m)
  unfolding insert
  All-insert P k v [] pv h = (pv, tt)
  All-insert P k v ((j, w) ∷ m) pv h = ground (arith, All-insert P k v m pv h.1)
