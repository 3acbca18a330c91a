-- ===== src/Prelude/Pairs.antt =====
-- Relations between the places of a list.
use mathlib.Core.Bool.{Bool, true, false}
use mathlib.Core.List.{List, [], ◌∷◌, ◌++◌}
use idol_id_agents.Prelude.Tests.{if◌then◌else◌}
use idol_id_agents.Prelude.Lists.{All, All-append, All-keep, All-map, keep}

module _ {A : Type 0} (R : A → A → Type 0) where
  -- Each item is related to each later one.
  abbrev pub Pairwise : List A → Type 0
  Pairwise [] = Unit
  Pairwise (x ∷ xs) = All (R x) xs × Pairwise xs

  pub Pairwise-keep : (p : A → Bool) (xs : List A) → Pairwise xs → Pairwise (keep p xs)
  Pairwise-keep p [] h = tt
  Pairwise-keep p (x ∷ xs) h =
      elim (p x) as (λ b. Pairwise (if b then x ∷ keep p xs else keep p xs)) [
        | true ↦ (All-keep (R x) p xs h.0, Pairwise-keep p xs h.1)
        | false ↦ Pairwise-keep p xs h.1
      ]

  pub Pairwise-append :
      (xs ys : List A)
      → Pairwise xs
      → Pairwise ys
      → All (λ x. All (R x) ys) xs
      → Pairwise (xs ++ ys)
  Pairwise-append [] ys h k c = k
  Pairwise-append (x ∷ xs) ys h k c =
      (All-append (R x) xs ys h.0 c.0, Pairwise-append xs ys h.1 k c.1)

  pub Pairwise-snoc :
      (xs : List A) (y : A) → Pairwise xs → All (λ x. R x y) xs → Pairwise (xs ++ y ∷ [])
  Pairwise-snoc [] y h c = (tt, tt)
  Pairwise-snoc (x ∷ xs) y h c =
      (All-append (R x) xs (y ∷ []) h.0 (c.0, tt), Pairwise-snoc xs y h.1 c.1)

module _ {A : Type 0} {R S : A → A → Type 0} (f : (x y : A) → R x y → S x y) where
  pub Pairwise-map : (xs : List A) → Pairwise R xs → Pairwise S xs
  Pairwise-map [] h = tt
  Pairwise-map (x ∷ xs) h = (All-map (f x) xs h.0, Pairwise-map xs h.1)
