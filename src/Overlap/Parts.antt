-- ===== src/Overlap/Parts.antt =====
-- The parts of a claim: slashes around it do not count, and a claim below another has its parts
-- behind those of the other.
use mathlib.Core.List.{append-nil}
use idol_id_agents.Prelude.{
  ℕ, zero, suc, Text, true, ◌≡◌, refl, sym, ap, ◌∙◌, List, [], ◌∷◌, ◌++◌, not, keep, keep-append,
  nat_eq, arith, is_empty, Bool-cases, inl, inr,
}
use idol_id_agents.Strings.{slash, split, lstrip, rstrip, strip_of}
use idol_id_agents.Strings.Words.{split-append, repeat, rstrip_split}
use idol_id_agents.Overlap.{parts}

-- The parts with no slash cut off first.
abbrev pub bare : Text → List Text
bare s = keep (λ part. not (is_empty part)) (split slash s)

bare-append : (s t : Text) → bare (s ++ slash ∷ t) ≡ bare s ++ bare t
bare-append s t = rw split-append (keep-append _ (split slash s) (split slash t))

bare-cons : (t : Text) → bare (slash ∷ t) ≡ bare t
unfolding split
bare-cons t = bare-append [] t

bare-repeat : (n : ℕ) → bare (repeat slash n) ≡ []
unfolding split
bare-repeat zero = refl
bare-repeat (suc n) = bare-cons (repeat slash n) ∙ bare-repeat n

bare-cut : (s : Text) (n : ℕ) → bare (s ++ repeat slash n) ≡ bare s
bare-cut s zero = rw append-nil
bare-cut s (suc n) = bare-append s (repeat slash n) ∙ rw bare-repeat (append-nil (bare s))

bare-rstrip : (s : Text) → bare (rstrip (λ c. nat_eq c slash) s) ≡ bare s
bare-rstrip s = let (n, e) = rstrip_split slash s in sym (ap bare e ∙ bare-cut _ n)

bare-slash : (c : ℕ) (s : Text) → nat_eq c slash ≡ true → bare (c ∷ s) ≡ bare s
bare-slash c s h = let e : c ≡ slash = ground arith in ap (λ d. bare (d ∷ s)) e ∙ bare-cons s

bare-lstrip : (s : Text) → bare (lstrip (λ c. nat_eq c slash) s) ≡ bare s
unfolding lstrip
bare-lstrip [] = refl
bare-lstrip (c ∷ s) = elim (Bool-cases (nat_eq c slash)) [
  | inl cut ↦ rw cut (bare-lstrip s ∙ sym (bare-slash c s cut))
  | inr kept ↦ rw kept refl
]

-- `strip("/")` before the split changes nothing.
pub parts-eq-bare : (s : Text) → parts s ≡ bare s
unfolding parts strip_of
parts-eq-bare s = bare-rstrip (lstrip (λ c. nat_eq c slash) s) ∙ bare-lstrip s

pub parts-append : (s t : Text) → parts (s ++ slash ∷ t) ≡ parts s ++ parts t
parts-append s t = simp parts-eq-bare (bare-append s t)
