-- ===== src/Prelude/Lists.antt =====
-- Lists by native numbers, Boolean searches, and predicates over lists by recursion.
use Prim.Native.Nat.{ℕ, suc, ◌+◌}
use mathlib.Core.Path.{◌≡◌, refl, sym, ap}
use mathlib.Core.Logic.{◌⊎◌, inl, inr}
use mathlib.Core.Bool.{Bool, true, false, not, ◌&&◌, ◌||◌, false≢true}
use mathlib.Core.Option.{Option, none, some}
use mathlib.Core.List.{List, [], ◌∷◌, ◌++◌, map}
use native.Mathlib.Omega.{arith}
use idol_id_agents.Prelude.Tests.{if◌then◌else◌}

pub not-false : (b : Bool) → not b ≡ false → b ≡ true
not-false b h = ground arith

pub or_false : (a b : Bool) → (a || b) ≡ false → (a ≡ false) × (b ≡ false)
or_false a b h = ground arith

pub or_true : (a b : Bool) → (a || b) ≡ true → (a ≡ true) ⊎ (b ≡ true)
or_true a b h = ground arith

pub and_false : (a b : Bool) → (a && b) ≡ false → (a ≡ false) ⊎ (b ≡ false)
and_false a b h = ground arith

pub and_true : (a b : Bool) → (a && b) ≡ true → (a ≡ true) × (b ≡ true)
and_true a b h = ground arith

module _ {ℓ} {A : Type ℓ} where
  abbrev pub length : List A → ℕ
  length [] = 0
  length (x ∷ xs) = suc (length xs)

  pub length-append : (xs ys : List A) → length (xs ++ ys) ≡ length xs + length ys
  length-append [] ys = omega arith
  length-append (x ∷ xs) ys = omega (arith, length-append xs ys)

  abbrev pub is_empty : List A → Bool
  is_empty [] = true
  is_empty (x ∷ xs) = false

  -- `any(p(x) for x in xs)` and `all(p(x) for x in xs)`.
  abbrev pub any : (A → Bool) → List A → Bool
  any p [] = false
  any p (x ∷ xs) = p x || any p xs

  abbrev pub all : (A → Bool) → List A → Bool
  all p [] = true
  all p (x ∷ xs) = p x && all p xs

  -- `[x for x in xs if p(x)]`.
  abbrev pub keep : (A → Bool) → List A → List A
  keep p [] = []
  keep p (x ∷ xs) = let rest = keep p xs in if p x then x ∷ rest else rest

  abbrev pub last? : List A → Option A
  last? [] = none
  last? (x ∷ []) = some x
  last? (x ∷ (y ∷ ys)) = last? (y ∷ ys)

  pub keep-append : (p : A → Bool) (xs ys : List A) → keep p (xs ++ ys) ≡ keep p xs ++ keep p ys
  keep-append p [] ys = refl
  keep-append p (x ∷ xs) ys =
      elim (p x)
        as (λ b.
          (if b then x ∷ keep p (xs ++ ys) else keep p (xs ++ ys))
          ≡ (if b then x ∷ keep p xs else keep p xs) ++ keep p ys) [
            | true ↦ ap (λ l. x ∷ l) (keep-append p xs ys)
            | false ↦ keep-append p xs ys
          ]

module _ {ℓ κ} {A : Type ℓ} (P : A → Type κ) where
  abbrev pub All : List A → Type κ
  All [] = Unit
  All (x ∷ xs) = P x × All xs

  pub All-append : (xs ys : List A) → All xs → All ys → All (xs ++ ys)
  All-append [] ys p q = q
  All-append (x ∷ xs) ys p q = (p.0, All-append xs ys p.1 q)

  pub All-keep : (p : A → Bool) (xs : List A) → All xs → All (keep p xs)
  All-keep p [] h = tt
  All-keep p (x ∷ xs) h = elim (p x) as (λ b. All (if b then x ∷ keep p xs else keep p xs)) [
    | true ↦ (h.0, All-keep p xs h.1)
    | false ↦ All-keep p xs h.1
  ]

module _ {ℓ} {A : Type ℓ} (P : A → Type 0) where
  abbrev pub Any : List A → Type 0
  Any [] = ⊥
  Any (x ∷ xs) = P x ⊎ Any xs

  pub Any-append_left : (xs ys : List A) → Any xs → Any (xs ++ ys)
  Any-append_left (x ∷ xs) ys (inl p) = inl p
  Any-append_left (x ∷ xs) ys (inr p) = inr (Any-append_left xs ys p)
  Any-append_left [] ys p = elim p [ ]

  pub Any-append_right : (xs ys : List A) → Any ys → Any (xs ++ ys)
  Any-append_right [] ys p = p
  Any-append_right (x ∷ xs) ys p = inr (Any-append_right xs ys p)

module _ {ℓ} {A : Type ℓ} (p : A → Bool) where
  pub any-false : (xs : List A) → any p xs ≡ false → All (λ x. p x ≡ false) xs
  any-false [] h = tt
  any-false (x ∷ xs) h =
      let (here, there) = or_false (p x) (any p xs) h in (here, any-false xs there)

  pub any-true : (xs : List A) → any p xs ≡ true → Any (λ x. p x ≡ true) xs
  any-true [] h = absurd (false≢true h)
  any-true (x ∷ xs) h = elim (or_true (p x) (any p xs) h) [
    | inl e ↦ inl e
    | inr e ↦ inr (any-true xs e)
  ]

  pub all-true : (xs : List A) → all p xs ≡ true → All (λ x. p x ≡ true) xs
  all-true [] h = tt
  all-true (x ∷ xs) h = let (here, there) = and_true (p x) (all p xs) h in (here, all-true xs there)

  pub All-keep_test : (xs : List A) → All (λ x. p x ≡ true) (keep p xs)
  All-keep_test [] = tt
  All-keep_test (x ∷ xs) = split (p x) refl (All-keep_test xs)
    where
      split :
          (b : Bool)
          → p x ≡ b
          → All (λ y. p y ≡ true) (keep p xs)
          → All (λ y. p y ≡ true) (if b then x ∷ keep p xs else keep p xs)
      split true e rest = (e, rest)
      split false e rest = rest

  pub all-false : (xs : List A) → all p xs ≡ false → Any (λ x. p x ≡ false) xs
  all-false [] h = absurd (false≢true (sym h))
  all-false (x ∷ xs) h = elim (and_false (p x) (all p xs) h) [
    | inl e ↦ inl e
    | inr e ↦ inr (all-false xs e)
  ]

module _ {ℓ} {A : Type ℓ} {P Q : A → Type 0} (f : (x : A) → P x → Q x) where
  pub All-map : (xs : List A) → All P xs → All Q xs
  All-map [] h = tt
  All-map (x ∷ xs) h = (f x h.0, All-map xs h.1)

  pub Any-map : (xs : List A) → Any P xs → Any Q xs
  Any-map (x ∷ xs) (inl h) = inl (f x h)
  Any-map (x ∷ xs) (inr h) = inr (Any-map xs h)
  Any-map [] h = elim h [ ]

module _ {ℓ} {A : Type ℓ} where
  pub is_empty-append : (xs ys : List A) → is_empty (xs ++ ys) ≡ is_empty xs && is_empty ys
  is_empty-append [] ys = refl
  is_empty-append (x ∷ xs) ys = refl

  pub is_empty-map {κ} : {B : Type κ} (f : A → B) (xs : List A) → is_empty (map f xs) ≡ is_empty xs
  is_empty-map f [] = refl
  is_empty-map f (x ∷ xs) = refl

  pub is_empty-eq : (xs : List A) → is_empty xs ≡ true → xs ≡ []
  is_empty-eq [] h = refl
  is_empty-eq (x ∷ xs) h = absurd (false≢true h)

module _ {A : Type 0} where
  -- Each item of a list is one of its items.
  pub All-self : (xs : List A) → All (λ x. Any (λ y. y ≡ x) xs) xs
  All-self [] = tt
  All-self (x ∷ xs) =
      let wrap : (y : A) → Any (λ z. z ≡ y) xs → Any (λ z. z ≡ y) (x ∷ xs) = λ y h. inr h in
      (inl refl, All-map wrap xs (All-self xs))

module _ {ℓ} {A : Type ℓ} (P Q : A → Type 0) where
  -- An item with what holds of it and what holds of every item.
  pub All-any : (xs : List A) → All P xs → Any Q xs → (x : A) × P x × Q x
  All-any (x ∷ xs) h (inl e) = (x, h.0, e)
  All-any (x ∷ xs) h (inr e) = All-any xs h.1 e
  All-any [] h e = elim e [ ]

  pub All-zip : (xs : List A) → All P xs → All Q xs → All (λ x. P x × Q x) xs
  All-zip [] h k = tt
  All-zip (x ∷ xs) h k = ((h.0, k.0), All-zip xs h.1 k.1)

module _ {ℓ} {A B : Type ℓ} (P : B → Type 0) (f : A → B) where
  pub All-of_map : (xs : List A) → All (λ x. P (f x)) xs → All P (map f xs)
  All-of_map [] h = tt
  All-of_map (x ∷ xs) h = (h.0, All-of_map xs h.1)

  pub All-under_map : (xs : List A) → All P (map f xs) → All (λ x. P (f x)) xs
  All-under_map [] h = tt
  All-under_map (x ∷ xs) h = (h.0, All-under_map xs h.1)

module _ {ℓ} {A : Type ℓ} {P : A → Type 0} (f : (x : A) → P x) where
  pub All-always : (xs : List A) → All P xs
  All-always [] = tt
  All-always (x ∷ xs) = (f x, All-always xs)

module _ {ℓ κ} {A : Type ℓ} {B : Type κ} (R : A → B → Type 0) where
  pub All-each : (xs : List A) → ((b : B) → All (λ x. R x b) xs) → All (λ x. (b : B) → R x b) xs
  All-each [] h = tt
  All-each (x ∷ xs) h = (λ b. (h b).0, All-each xs (λ b. (h b).1))
