-- ===== src/Scheduler/Conflict.antt =====
-- Conflicts of work orders do not depend on their order, and an order with claims conflicts with
-- itself.
use idol_id_agents.Prelude.{
  Bool, true, false, ◌≡◌, ◌≢◌, refl, ap, ◌∙◌, ◌||◌, List, [], ◌∷◌, any, arith, Text,
}
use idol_id_agents.Overlap.{path_overlap, semantic_overlap}
use idol_id_agents.Overlap.Claims.{path_overlap_sym, semantic_overlap_sym, overlap_self}
use idol_id_agents.Model.{WorkOrder}
use idol_id_agents.Model.Admitted.{IsAdmitted}
use idol_id_agents.Scheduler.{orders_conflict}

module _ {A : Type 0} (f : A → A → Bool) (f_sym : (a b : A) → f a b ≡ f b a) where
  any-nil : (xs : List A) → any (λ a. any (λ b. f a b) []) xs ≡ false
  any-nil [] = refl
  any-nil (x ∷ xs) = any-nil xs

  any-cons :
      (y : A) (ys xs : List A)
      → any (λ a. any (λ b. f a b) (y ∷ ys)) xs
        ≡ (any (λ a. f y a) xs || any (λ a. any (λ b. f a b) ys) xs)
  any-cons y ys [] = refl
  any-cons y ys (x ∷ xs) = ground (arith, any-cons y ys xs, f_sym x y)

  pub any_exchange :
      (xs ys : List A) → any (λ a. any (λ b. f a b) ys) xs ≡ any (λ a. any (λ b. f a b) xs) ys
  any_exchange xs [] = any-nil xs
  any_exchange xs (y ∷ ys) =
      any-cons y ys xs ∙ ap (λ t. any (λ a. f y a) xs || t) (any_exchange xs ys)

pub orders_conflict_sym :
    (left right : WorkOrder) → orders_conflict left right ≡ orders_conflict right left
unfolding orders_conflict
orders_conflict_sym left right = ground (
  arith,
  any_exchange path_overlap path_overlap_sym left.path_claims right.path_claims,
  any_exchange semantic_overlap semantic_overlap_sym left.semantic_claims right.semantic_claims,
)

self_any : (xs : List Text) → xs ≢ [] → any (λ a. any (λ b. path_overlap a b) xs) xs ≡ true
self_any [] h = absurd (h refl)
self_any (x ∷ xs) h = ground (arith, overlap_self x)

pub orders_conflict_self :
    (order : WorkOrder) → IsAdmitted order → orders_conflict order order ≡ true
unfolding orders_conflict
orders_conflict_self order h = ground (arith, self_any order.path_claims h.has_paths)
