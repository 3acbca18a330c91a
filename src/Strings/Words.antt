-- ===== src/Strings/Words.antt =====
-- Laws of the split into words.
use idol_id_agents.Prelude.{
  ℕ, zero, suc, Text, ◌≡◌, refl, ap, [], ◌∷◌, ◌++◌, ◌&&◌, nat_eq, arith, is_empty, Bool-cases, inl,
  inr,
}
use idol_id_agents.Strings.{words, split, rstrip}

-- A separator ends the words before it.
pub words-append :
    (sep : ℕ) (s t : Text)
    → words sep (s ++ sep ∷ t)
      ≡ ((words sep s).0, (words sep s).1 ++ (words sep t).0 ∷ (words sep t).1)
unfolding words
words-append sep [] t = ground arith
words-append sep (c ∷ s) t = ground (arith, words-append sep s t)

pub split-append : (sep : ℕ) (s t : Text) → split sep (s ++ sep ∷ t) ≡ split sep s ++ split sep t
unfolding split
split-append sep s t = rw words-append

-- `s` with its trailing separators cut off, and the separators that were cut.
abbrev pub repeat : ℕ → ℕ → Text
repeat c zero = []
repeat c (suc n) = c ∷ repeat c n

pub rstrip_split :
    (sep : ℕ) (s : Text) → (n : ℕ) × (s ≡ rstrip (λ c. nat_eq c sep) s ++ repeat sep n)
unfolding rstrip
rstrip_split sep [] = (0, refl)
rstrip_split sep (c ∷ s) =
    let (n, e) = rstrip_split sep s in
    elim (Bool-cases (nat_eq c sep && is_empty (rstrip (λ d. nat_eq d sep) s))) [
      | inl cut ↦ (suc n, rw cut (ground arith))
      | inr kept ↦ (n, rw kept (ap (λ r. c ∷ r) e))
    ]
