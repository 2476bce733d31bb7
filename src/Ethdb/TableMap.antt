-- ===== src/Ethdb/TableMap.antt =====
-- The `std::map` from table names that a transaction keeps: pairs in the order of their keys.
pub mod Laws
use Prim.Native.Nat.{compare, Ordering}
use silkoroutine.Common.{Bytes, List, [], ◌∷◌, Option, none, some}

-- `std::string::compare`.
unfoldable pub compare_bytes : Bytes → Bytes → Ordering
compare_bytes [] [] = Ordering.eq
compare_bytes [] (y ∷ ys) = Ordering.lt
compare_bytes (x ∷ xs) [] = Ordering.gt
compare_bytes (x ∷ xs) (y ∷ ys) = elim (compare x y) [
  | Ordering.lt ↦ Ordering.lt
  | Ordering.eq ↦ compare_bytes xs ys
  | Ordering.gt ↦ Ordering.gt
]

abbrev pub TableMap : Type 0 → Type 0
TableMap V = List (Bytes × V)

module _ {V : Type 0} where
  unfoldable pub find : Bytes → TableMap V → Option V
  find k [] = none
  find k ((j, v) ∷ m) = elim (compare_bytes k j) [
    | Ordering.lt ↦ none
    | Ordering.eq ↦ some v
    | Ordering.gt ↦ find k m
  ]

  -- `m[k] = v`.
  unfoldable pub insert : Bytes → V → TableMap V → TableMap V
  insert k v [] = (k, v) ∷ []
  insert k v ((j, w) ∷ m) = elim (compare_bytes k j) [
    | Ordering.lt ↦ (k, v) ∷ (j, w) ∷ m
    | Ordering.eq ↦ (k, v) ∷ m
    | Ordering.gt ↦ (j, w) ∷ insert k v m
  ]
