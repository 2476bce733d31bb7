-- ===== src/Sentry/Calls.antt =====
-- How often an operation occurs in what the client keeps.
use silkoroutine.Common.{
  ℕ, zero, suc, ◌+◌, true, false, List, [], ◌∷◌, ◌++◌, map, Option, none, some, ◌≡◌, ◌≢◌, refl,
  length, get_elem?, set, ◌==◌, if◌then◌else◌, arith,
}
use silkoroutine.Sentry.Client.{Operation, count, remove}

-- 1 for the equal, 0 for others.
abbrev pub one_at : ℕ → ℕ → ℕ
one_at i j = if i == j then 1 else 0

pub count-last : (j : ℕ) (xs : List ℕ) (x : ℕ) → count j (xs ++ x ∷ []) ≡ count j xs + one_at x j
count-last j [] x = ground arith
count-last j (y ∷ xs) x = ground (arith, count-last j xs x)

pub count-remove :
    (j i : ℕ) (xs : List ℕ) → count i xs ≢ 0 → count j (remove i xs) + one_at i j ≡ count j xs
count-remove j i [] h = absurd (h refl)
count-remove j i (x ∷ xs) h = ground (arith, count-remove j i xs)

-- 1 where a live operation is.
abbrev pub weight : Option Operation → ℕ
weight none = 0
weight (some o) = if o.is_live then 1 else 0

abbrev pub live_at : List Operation → ℕ → ℕ
live_at os j = weight (get_elem? os j)

abbrev new_operation : ℕ → Operation
new_operation h = record { handler = h; is_live = true }

pub live_at-last :
    (os : List Operation) (h j : ℕ)
    → live_at (os ++ record { handler = h; is_live = true } ∷ []) j
      ≡ live_at os j + one_at (length os) j
live_at-last [] h zero = refl
live_at-last [] h (suc j) = ground arith
live_at-last (o ∷ os) h zero = ground arith
live_at-last (o ∷ os) h (suc j) = ground (arith, live_at-last os h j)

pub live_at-set :
    (os : List Operation) (i j : ℕ) (o : Operation)
    → get_elem? os i ≡ some o
    → o.is_live ≡ true
    → live_at (set os i (record o { is_live = false })) j + one_at i j ≡ live_at os j
live_at-set [] i j o e l = cc
live_at-set (p ∷ os) zero zero o e l = ground arith
live_at-set (p ∷ os) zero (suc j) o e l = ground arith
live_at-set (p ∷ os) (suc i) zero o e l = ground arith
live_at-set (p ∷ os) (suc i) (suc j) o e l = ground (arith, live_at-set os i j o)

-- The operations of a handler that were given back.
abbrev pub freed : ℕ → List Operation → ℕ
freed h [] = 0
freed h (o ∷ os) = (if o.is_live then 0 else one_at o.handler h) + freed h os

pub freed-last :
    (h : ℕ) (os : List Operation) (k : ℕ)
    → freed h (os ++ record { handler = k; is_live = true } ∷ []) ≡ freed h os
freed-last h [] k = refl
freed-last h (o ∷ os) k = omega (arith, freed-last h os k)

pub freed-set :
    (h : ℕ) (os : List Operation) (i : ℕ) (o : Operation)
    → get_elem? os i ≡ some o
    → o.is_live ≡ true
    → freed h (set os i (record o { is_live = false })) ≡ freed h os + one_at o.handler h
freed-set h [] i o e l = cc
freed-set h (p ∷ os) zero o e l = ground arith
freed-set h (p ∷ os) (suc i) o e l = omega (arith, freed-set h os i o e l)

-- Where no operation is live, all were given back.
pub freed_all :
    (h : ℕ) (os : List Operation)
    → ((j : ℕ) → live_at os j ≡ 0)
    → freed h os ≡ count h (map (λ (o : Operation). o.handler) os)
freed_all h [] none_live = refl
freed_all h (o ∷ os) none_live =
    ground (arith, none_live 0, freed_all h os (λ j. none_live (suc j)))
