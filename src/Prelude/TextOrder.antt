-- ===== src/Prelude/TextOrder.antt =====
-- The order of texts is a strict total order.
use mathlib.Core.Path.{◌≡◌, refl}
use mathlib.Core.Bool.{true, false}
use mathlib.Core.List.{[], ◌∷◌}
use native.Mathlib.Omega.{arith}
use idol_id_agents.Prelude.Texts.{Text, text_lt}

pub text_lt_asym : (s t : Text) → text_lt s t ≡ true → text_lt t s ≡ false
unfolding text_lt
text_lt_asym [] [] h = refl
text_lt_asym [] (d ∷ t) h = refl
text_lt_asym (c ∷ s) [] h = cc
text_lt_asym (c ∷ s) (d ∷ t) h = ground (arith, text_lt_asym s t)

pub text_lt_conn : (s t : Text) → text_lt s t ≡ false → text_lt t s ≡ false → s ≡ t
unfolding text_lt
text_lt_conn [] [] h k = refl
text_lt_conn [] (d ∷ t) h k = cc
text_lt_conn (c ∷ s) [] h k = cc
text_lt_conn (c ∷ s) (d ∷ t) h k = ground (arith, text_lt_conn s t)

-- "Not before" is transitive.
pub not_text_lt_trans :
    (s t u : Text) → text_lt t s ≡ false → text_lt u t ≡ false → text_lt u s ≡ false
unfolding text_lt
not_text_lt_trans [] [] [] h k = refl
not_text_lt_trans [] [] (e ∷ u) h k = refl
not_text_lt_trans [] (d ∷ t) [] h k = cc
not_text_lt_trans [] (d ∷ t) (e ∷ u) h k = refl
not_text_lt_trans (c ∷ s) [] u h k = cc
not_text_lt_trans (c ∷ s) (d ∷ t) [] h k = cc
not_text_lt_trans (c ∷ s) (d ∷ t) (e ∷ u) h k = ground (arith, not_text_lt_trans s t u)
