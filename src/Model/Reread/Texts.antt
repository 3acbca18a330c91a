-- ===== src/Model/Reread/Texts.antt =====
-- A stripped text is stripped already, and a lowered one lowered.
use idol_id_agents.Prelude.{
  ℕ, Text, Bool, false, ◌≡◌, refl, ap, ◌∙◌, ◌&&◌, [], ◌∷◌, is_empty, Bool-cases, inl, inr, arith,
}
use idol_id_agents.Strings.{strip, strip_of, lstrip, rstrip, is_space}
use idol_id_agents.Model.Decode.{lower_char, lower}

module _ (p : ℕ → Bool) where
  rstrip-head : (c : ℕ) (s : Text) → p c ≡ false → rstrip p (c ∷ s) ≡ c ∷ rstrip p s
  unfolding rstrip
  rstrip-head c s h = rw h refl

  rstrip-rstrip : (s : Text) → rstrip p (rstrip p s) ≡ rstrip p s
  unfolding rstrip
  rstrip-rstrip [] = refl
  rstrip-rstrip (c ∷ s) = elim (Bool-cases (p c && is_empty (rstrip p s))) [
    | inl cut ↦ rw cut refl
    | inr kept ↦ rw (kept, rstrip-rstrip s, kept) refl
  ]

  -- Nothing to strip at the front.
  abbrev Starts : Text → Type 0
  Starts [] = Unit
  Starts (c ∷ s) = p c ≡ false

  lstrip-Starts : (s : Text) → Starts (lstrip p s)
  unfolding lstrip
  lstrip-Starts [] = tt
  lstrip-Starts (c ∷ s) = elim (Bool-cases (p c)) [
    | inl cut ↦ rw cut (lstrip-Starts s)
    | inr kept ↦ rw kept kept
  ]

  lstrip-rstrip : (s : Text) → Starts s → lstrip p (rstrip p s) ≡ rstrip p s
  unfolding lstrip rstrip
  lstrip-rstrip [] h = refl
  lstrip-rstrip (c ∷ s) h = rw (h, h) refl

pub strip-strip : (s : Text) → strip (strip s) ≡ strip s
unfolding strip strip_of
strip-strip s =
    ap (rstrip is_space) (lstrip-rstrip is_space (lstrip is_space s) (lstrip-Starts is_space s))
    ∙ rstrip-rstrip is_space (lstrip is_space s)

pub lower-lower : (s : Text) → lower (lower s) ≡ lower s
lower-lower [] = refl
lower-lower (c ∷ s) =
    let same : lower_char (lower_char c) ≡ lower_char c = ground arith in
    rw (same, lower-lower s) refl
