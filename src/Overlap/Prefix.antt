-- ===== src/Overlap/Prefix.antt =====
-- Two claims overlap exactly when the parts of one begin the parts of the other.
use idol_id_agents.Prelude.{
  Text, true, ◌≡◌, refl, sym, ◌⊎◌, List, [], ◌∷◌, ◌++◌, ◌==◌, eq_iff, eq_sym, arith, inl, inr, min,
  length, suc, ◌&&◌, ℕ,
}
use idol_id_agents.Overlap.{heads_agree}

-- `xs` is the beginning of `ys`.
abbrev pub Begins : List Text → List Text → Type 0
Begins xs ys = (rest : List Text) × (xs ++ rest ≡ ys)

min-suc : (a b : ℕ) → min (suc a) (suc b) ≡ suc (min a b)
min-suc a b = omega arith

pub heads_agree-cons :
    (a b : Text) (xs ys : List Text) → heads_agree (a ∷ xs) (b ∷ ys) ≡ (a == b) && heads_agree xs ys
unfolding heads_agree
heads_agree-cons a b xs ys = rw min-suc refl

heads_agree-nil_left : (ys : List Text) → heads_agree [] ys ≡ true
unfolding heads_agree
heads_agree-nil_left ys = let e : min 0 (length ys) ≡ 0 = omega arith in rw e refl

heads_agree-nil_right : (xs : List Text) → heads_agree xs [] ≡ true
unfolding heads_agree
heads_agree-nil_right xs = let e : min (length xs) 0 ≡ 0 = omega arith in rw e refl

pub heads_agree_sym : (xs ys : List Text) → heads_agree xs ys ≡ heads_agree ys xs
heads_agree_sym [] ys = rw (heads_agree-nil_left, heads_agree-nil_right)
heads_agree_sym (x ∷ xs) [] = rw (heads_agree-nil_left, heads_agree-nil_right)
heads_agree_sym (x ∷ xs) (y ∷ ys) = simp heads_agree-cons (rw (eq_sym x y, heads_agree_sym xs ys))

Begins-cons : {a b : Text} (xs ys : List Text) → a ≡ b → Begins xs ys → Begins (a ∷ xs) (b ∷ ys)
Begins-cons xs ys e (rest, h) = (rest, cc)

pub heads_agree→Begins :
    (xs ys : List Text) → heads_agree xs ys ≡ true → Begins xs ys ⊎ Begins ys xs
heads_agree→Begins [] ys h = inl (ys, refl)
heads_agree→Begins (x ∷ xs) [] h = inr (x ∷ xs, refl)
heads_agree→Begins (x ∷ xs) (y ∷ ys) h =
    let both = heads_agree-cons x y xs ys in
    let same : x ≡ y = ground (arith, both, eq_iff x y) in
    elim (heads_agree→Begins xs ys (ground (arith, both))) [
      | inl p ↦ inl (Begins-cons xs ys same p)
      | inr p ↦ inr (Begins-cons ys xs (sym same) p)
    ]

pub Begins→heads_agree : (xs ys : List Text) → Begins xs ys → heads_agree xs ys ≡ true
Begins→heads_agree [] ys p = heads_agree-nil_left ys
Begins→heads_agree (x ∷ xs) [] (rest, h) = cc
Begins→heads_agree (x ∷ xs) (y ∷ ys) (rest, h) =
    let tails : xs ++ rest ≡ ys = cc in
    let same : x ≡ y = cc in
    rw heads_agree-cons (ground (arith, eq_iff x y, Begins→heads_agree xs ys (rest, tails)))
