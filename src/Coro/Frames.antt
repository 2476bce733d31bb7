-- ===== src/Coro/Frames.antt =====
-- The list of frames: a frame that is changed, and frames that are added.
use silkoroutine.Common.{
  ℕ, zero, suc, List, [], ◌∷◌, ◌++◌, some, ◌≡◌, refl, sym, ap, ◌∙◌, length, get_elem?,
}
use silkoroutine.Coro.Task.{Frame, modify}

pub length-modify :
    (i : ℕ) (g : Frame → Frame) (xs : List Frame) → length (modify i g xs) ≡ length xs
length-modify i g [] = refl
length-modify zero g (x ∷ xs) = refl
length-modify (suc i) g (x ∷ xs) = ap suc (length-modify i g xs)

pub get_elem?-modify :
    (i : ℕ) (g : Frame → Frame) (xs : List Frame) (x : Frame)
    → get_elem? xs i ≡ some x
    → get_elem? (modify i g xs) i ≡ some (g x)
get_elem?-modify i g [] x h = cc
get_elem?-modify zero g (y ∷ xs) x h = cc
get_elem?-modify (suc i) g (y ∷ xs) x h = get_elem?-modify i g xs x h

pub get_elem?-append :
    (i : ℕ) (xs ys : List Frame) (x : Frame)
    → get_elem? xs i ≡ some x
    → get_elem? (xs ++ ys) i ≡ some x
get_elem?-append i [] ys x h = cc
get_elem?-append zero (y ∷ xs) ys x h = h
get_elem?-append (suc i) (y ∷ xs) ys x h = get_elem?-append i xs ys x h

pub modify-append :
    (i : ℕ) (g : Frame → Frame) (xs ys : List Frame) (x : Frame)
    → get_elem? xs i ≡ some x
    → modify i g (xs ++ ys) ≡ modify i g xs ++ ys
modify-append i g [] ys x h = cc
modify-append zero g (y ∷ xs) ys x h = refl
modify-append (suc i) g (y ∷ xs) ys x h = ap (◌∷◌ y) (modify-append i g xs ys x h)

pub get_elem?-added :
    (xs ys : List Frame) (y : Frame) → get_elem? (xs ++ y ∷ ys) (length xs) ≡ some y
get_elem?-added [] ys y = refl
get_elem?-added (x ∷ xs) ys y = get_elem?-added xs ys y

pub modify-added :
    (g : Frame → Frame) (xs ys : List Frame) (y : Frame)
    → modify (length xs) g (xs ++ y ∷ ys) ≡ xs ++ g y ∷ ys
modify-added g [] ys y = refl
modify-added g (x ∷ xs) ys y = ap (◌∷◌ x) (modify-added g xs ys y)

pub modify-modify :
    (i : ℕ) (g h : Frame → Frame) (xs : List Frame) (x : Frame)
    → get_elem? xs i ≡ some x
    → g (h x) ≡ x
    → modify i g (modify i h xs) ≡ xs
modify-modify i g h [] x e same = refl
modify-modify zero g h (y ∷ xs) x e same =
    let y_is : y ≡ x = cc in ap (λ z. z ∷ xs) (ap (λ z. g (h z)) y_is ∙ same ∙ sym y_is)
modify-modify (suc i) g h (y ∷ xs) x e same = ap (◌∷◌ y) (modify-modify i g h xs x e same)

pub modify-twice :
    (i : ℕ) (g h : Frame → Frame) (xs : List Frame)
    → modify i g (modify i h xs) ≡ modify i (λ x. g (h x)) xs
modify-twice i g h [] = refl
modify-twice zero g h (y ∷ xs) = refl
modify-twice (suc i) g h (y ∷ xs) = ap (◌∷◌ y) (modify-twice i g h xs)
