-- ===== src/Scheduler/Sort.antt =====
-- `sorted(items, key=…)`: a stable sort by `before`, the strict order of the keys.
use idol_id_agents.Prelude.{
  Bool, true, false, ◌≡◌, List, [], ◌∷◌, All, Pairwise, All-map, Bool-cases, inl, inr,
  if◌then◌else◌,
}

module _ {A : Type 0} (before : A → A → Bool) where
  unfoldable pub insert : A → List A → List A
  insert x [] = x ∷ []
  insert x (y ∷ ys) = let later = insert x ys in if before y x then y ∷ later else x ∷ (y ∷ ys)

  unfoldable pub sort : List A → List A
  unfolding insert
  sort [] = []
  sort (x ∷ xs) = insert x (sort xs)

  module _ (P : A → Type 0) where
    insert-All : (x : A) (xs : List A) → P x → All P xs → All P (insert x xs)
    unfolding insert
    insert-All x [] p h = (p, tt)
    insert-All x (y ∷ ys) p h =
        elim (before y x) as (λ b. All P (if b then y ∷ insert x ys else x ∷ (y ∷ ys))) [
          | true ↦ (h.0, insert-All x ys p h.1)
          | false ↦ (p, h)
        ]

    -- What holds of each item holds of each sorted item.
    pub sort-All : (xs : List A) → All P xs → All P (sort xs)
    unfolding sort
    sort-All [] h = tt
    sort-All (x ∷ xs) h = insert-All x (sort xs) h.0 (sort-All xs h.1)

    insert-All_back : (x : A) (xs : List A) → All P (insert x xs) → P x × All P xs
    unfolding insert
    insert-All_back x [] h = h
    insert-All_back x (y ∷ ys) h = go (before y x) h (insert-All_back x ys)
      where
        go :
            (b : Bool)
            → All P (if b then y ∷ insert x ys else x ∷ (y ∷ ys))
            → (All P (insert x ys) → P x × All P ys)
            → P x × All P (y ∷ ys)
        go true k back = let (p, rest) = back k.1 in (p, (k.0, rest))
        go false k back = k

    -- What holds of each sorted item holds of each item: the sort loses nothing.
    pub sort-All_back : (xs : List A) → All P (sort xs) → All P xs
    unfolding sort
    sort-All_back [] h = tt
    sort-All_back (x ∷ xs) h =
        let (p, rest) = insert-All_back x (sort xs) h in (p, sort-All_back xs rest)

  module _ (asym : (a b : A) → before a b ≡ true → before b a ≡ false)
      (trans : (a b c : A) → before b a ≡ false → before c b ≡ false → before c a ≡ false) where
    -- No later item comes before an earlier one.
    abbrev pub InOrder : A → A → Type 0
    InOrder a b = before b a ≡ false

    insert-InOrder : (x : A) (xs : List A) → Pairwise InOrder xs → Pairwise InOrder (insert x xs)
    unfolding insert
    insert-InOrder x [] h = (tt, tt)
    insert-InOrder x (y ∷ ys) h = elim (Bool-cases (before y x)) [
      | inl less ↦
          rw less (insert-All (InOrder y) x ys (asym y x less) h.0, insert-InOrder x ys h.1)
      | inr more ↦ rw more ((more, All-map (λ z e. trans x y z more e) ys h.0), h)
    ]

    pub sort-InOrder : (xs : List A) → Pairwise InOrder (sort xs)
    unfolding sort
    sort-InOrder [] = tt
    sort-InOrder (x ∷ xs) = insert-InOrder x (sort xs) (sort-InOrder xs)
