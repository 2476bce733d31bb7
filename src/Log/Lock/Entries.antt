-- ===== src/Log/Lock/Entries.antt =====
-- What was put out under the lock, statement by statement, where each statement has texts.
use silkoroutine.Common.{
  ℕ, true, false, List, [], ◌∷◌, ◌++◌, map, ◌≡◌, refl, sym, ap, ◌∙◌, subst, ◌==◌, ==_iff,
  if◌then◌else◌, All, Bool-cases, inl, inr,
}
use silkoroutine.Log.Lock.Served.{statements_of}

module _ {A T : Type 0} (f : A → T) where
  -- The image of a list begins with what the image of its first element is.
  uncons :
      (P : A → Type 0) (t : T) (ts : List T) (xs : List A)
      → t ∷ ts ≡ map f xs
      → All P xs
      → (x : A) × (ys : List A) × (xs ≡ x ∷ ys) × (f x ≡ t) × (ts ≡ map f ys) × P x × All P ys
  uncons P t ts [] e h = cc
  uncons P t ts (x ∷ xs) e h = (x, xs, refl, cc, cc, h.0, h.1)

  -- The entries of a log of texts, as a log of what the texts are of: `l i` is what the thread `i`
  -- has in all, of which `todo i` is still to come.
  pub record Entries (P : A → Type 0) (log : List (ℕ × T)) (l : ℕ → List A) (todo : ℕ → List T)
      : Type 0 where
    pub entries : List (ℕ × A)
    pub rest : ℕ → List A
    pub texts : map (λ (e : ℕ × A). (e.0, f e.1)) entries ≡ log
    pub whole : (i : ℕ) → statements_of i entries ++ rest i ≡ l i
    pub left : (i : ℕ) → map f (rest i) ≡ todo i
    pub all : All (λ (e : ℕ × A). P e.1) entries

  abbrev update : ℕ → List A → (ℕ → List A) → ℕ → List A
  update j xs l i = if j == i then xs else l i

  -- What is left after the first entry, which is one of the thread `j`.
  module _ (j : ℕ) (xs : List A) (l : ℕ → List A) where
    update-whole :
        (log : List (ℕ × T)) (todo : ℕ → List T)
        → statements_of j log ++ todo j ≡ map f xs
        → ((i : ℕ) → (j == i) ≡ false → statements_of i log ++ todo i ≡ map f (l i))
        → (i : ℕ) → statements_of i log ++ todo i ≡ map f (update j xs l i)
    update-whole log todo mine others i = elim (Bool-cases (j == i)) [
      | inl same ↦
          let ji : j ≡ i = (==_iff j i).0 same in
          simp same (subst (λ n. statements_of n log ++ todo n ≡ map f xs) ji mine)
      | inr other ↦ simp other (others i other)
    ]

    update-All :
        (P : A → Type 0) → All P xs → ((i : ℕ) → All P (l i)) → (i : ℕ) → All P (update j xs l i)
    update-All P mine all i = elim (Bool-cases (j == i)) [
      | inl same ↦ simp same mine
      | inr other ↦ simp other (all i)
    ]

    with_first :
        (P : A → Type 0) (x : A) (t : T) (log : List (ℕ × T)) (todo : ℕ → List T)
        → l j ≡ x ∷ xs
        → f x ≡ t
        → P x
        → Entries P log (update j xs l) todo
        → Entries P ((j, t) ∷ log) l todo
    with_first P x t log todo mine texts px k = record {
      entries = (j, x) ∷ k.entries;
      rest = k.rest;
      texts = λ i. (j, texts i) ∷ k.texts i;
      whole = λ i. elim (Bool-cases (j == i)) [
        | inl same ↦
            let ji : j ≡ i = (==_iff j i).0 same in
            let others : statements_of i k.entries ++ k.rest i ≡ xs = simp same at (k.whole i) in
            simp same (ap (◌∷◌ x) others ∙ sym mine ∙ ap l ji)
        | inr other ↦
            let others : statements_of i k.entries ++ k.rest i ≡ l i = simp other at (k.whole i) in
            simp other others
      ];
      left = k.left;
      all = (px, k.all);
    }

  pub log-Entries :
      (P : A → Type 0) (log : List (ℕ × T)) (l : ℕ → List A) (todo : ℕ → List T)
      → ((i : ℕ) → statements_of i log ++ todo i ≡ map f (l i))
      → ((i : ℕ) → All P (l i))
      → Entries P log l todo
  log-Entries P [] l todo h p = record {
    entries = [];
    rest = l;
    texts = refl;
    whole = λ i. refl;
    left = λ i. sym (h i);
    all = tt;
  }
  log-Entries P ((j, t) ∷ log) l todo h p =
      let self : (j == j) ≡ true = (==_iff j j).1 refl in
      let (x, xs, mine, texts, later, px, pxs) =
        uncons P t (statements_of j log ++ todo j) (l j) (simp self at (h j)) (p j) in
      with_first j xs l P x t log todo mine texts px (
        log-Entries P log (update j xs l) todo
          (update-whole j xs l log todo later (λ i other. simp other at (h i)))
          (update-All j xs l P pxs p))
