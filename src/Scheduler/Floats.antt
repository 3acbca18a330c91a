-- ===== src/Scheduler/Floats.antt =====
-- The floating point numbers of Python, as the scores use them. `of_ratio a b` is the number that
-- the source writes as a decimal literal or gets from an integer. The one law says that `<` orders
-- numbers as floats that are not NaN are ordered.
use idol_id_agents.Prelude.{ℕ, Bool, true, false, ◌≡◌, if◌then◌else◌}

pub record Floats : Type 1 where
  pub Float : Type 0
  pub lt : Float → Float → Bool
  pub of_ratio : ℕ → ℕ → Float
  pub add : Float → Float → Float
  pub sub : Float → Float → Float
  pub mul : Float → Float → Float
  pub div : Float → Float → Float
  pub sqrt : Float → Float
  pub log10 : Float → Float
  pub lt_asym : (a b : Float) → lt a b ≡ true → lt b a ≡ false
  pub not_lt_trans : (a b c : Float) → lt b a ≡ false → lt c b ≡ false → lt c a ≡ false

module _ (F : Floats) where
  open F use {Float, lt}

  -- `max(a, b)` and `min(a, b)` keep the first of two equal numbers.
  abbrev pub fmax : Float → Float → Float
  fmax a b = if lt a b then b else a

  abbrev pub fmin : Float → Float → Float
  fmin a b = if lt b a then b else a
