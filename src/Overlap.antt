-- ===== src/Overlap.antt =====
-- fleet_control/scheduler.py, the overlap of claims: paths and semantic targets conflict when one
-- is the other or stands above it.
pub mod Parts
pub mod Prefix
pub mod Claims
use idol_id_agents.Prelude.{
  ℕ, zero, suc, Text, Bool, true, false, ◌&&◌, not, List, [], ◌∷◌, ◌==◌, nat_eq, keep, is_empty,
  length, min,
}
use idol_id_agents.Strings.{slash, split, strip_of}

-- `tuple(part for part in value.strip("/").split("/") if part)`.
unfoldable pub parts : Text → List Text
unfolding split strip_of
parts value =
    keep (λ part. not (is_empty part)) (split slash (strip_of (λ c. nat_eq c slash) value))

-- `items[:n]`.
abbrev pub take : {A : Type 0} → ℕ → List A → List A
take zero xs = []
take (suc n) [] = []
take (suc n) (x ∷ xs) = x ∷ take n xs

-- Equality of tuples of strings.
pub tuple_eq : List Text → List Text → Bool
unfolding ◌==◌
tuple_eq [] [] = true
tuple_eq [] (b ∷ bs) = false
tuple_eq (a ∷ rest) [] = false
tuple_eq (a ∷ rest) (b ∷ bs) = a == b && tuple_eq rest bs

pub heads_agree : List Text → List Text → Bool
unfolding tuple_eq
heads_agree a b =
    let shortest = min (length a) (length b) in tuple_eq (take shortest a) (take shortest b)

unfoldable pub semantic_overlap : Text → Text → Bool
unfolding parts heads_agree
semantic_overlap left right = heads_agree (parts left) (parts right)

unfoldable pub path_overlap : Text → Text → Bool
unfolding parts heads_agree
path_overlap left right = heads_agree (parts left) (parts right)
