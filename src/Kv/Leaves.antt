-- ===== src/Kv/Leaves.antt =====
-- What holds of the state that a run leaves, and runs one after another.
use silkoroutine.Common.{◌≡◌, refl}
use silkoroutine.Kv.World.{Outcome, ok, raised, fault}
use silkoroutine.Kv.Exec.{◌>>=◌}

-- Nothing is left by a run whose behaviour was undefined.
abbrev pub Leaves : {A : Type 0} → (A → Type 0) → Outcome A → Type 0
Leaves P (ok a) = P a
Leaves P (raised e a) = P a
Leaves P fault = Unit

module _ {A : Type 0} where
  pub Leaves-bind :
      (P : A → Type 0) (m : Outcome A) (f : A → Outcome A)
      → Leaves P m
      → ((a : A) → P a → Leaves P (f a))
      → Leaves P (m >>= f)
  Leaves-bind P (ok a) f h k = k a h
  Leaves-bind P (raised e a) f h k = h
  Leaves-bind P fault f h k = tt

  pub Leaves-weaken :
      (P Q : A → Type 0) (m : Outcome A) → ((a : A) → P a → Q a) → Leaves P m → Leaves Q m
  Leaves-weaken P Q (ok a) k h = k a h
  Leaves-weaken P Q (raised e a) k h = k a h
  Leaves-weaken P Q fault k h = tt

  pub bind_ext :
      (m : Outcome A) (f g : A → Outcome A) → ((a : A) → f a ≡ g a) → (m >>= f) ≡ (m >>= g)
  bind_ext (ok a) f g h = h a
  bind_ext (raised e a) f g h = refl
  bind_ext fault f g h = refl
