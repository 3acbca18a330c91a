-- ===== src/Model/Reread/Declarations.antt =====
-- A coordination that was loaded reads back from its mapping.
use mathlib.Core.Path.{subst}
use idol_id_agents.Prelude.{
  Text, text, ◌≡◌, refl, not, List, [], ◌∷◌, ◌==◌, Option, none, some, Fields, get, Result, ok, err,
  refuse_if-ok, >>=-ok, >>-ok, ok-injective,
}
use idol_id_agents.Model.{Coordination}
use idol_id_agents.Model.Atoms.{member}
use idol_id_agents.Model.Orders.{CoordinationError, check_coordination}
use idol_id_agents.Model.Decode.{or_coordination}
use idol_id_agents.Model.Decode.Declared.{
  text_field, number_field, texts_of, prerequisites_of, names_known, checked_coordination,
  later_coordination, coordination_of,
}
use idol_id_agents.Model.Encode.{text_items, coordination_fields}

abbrev pub IsChecked : Option Coordination → Type 0
IsChecked none = Unit
IsChecked (some c) = check_coordination c ≡ ok tt

texts_of-text_items : (ts : List Text) → texts_of (text_items ts) ≡ ok ts
unfolding texts_of text_items
texts_of-text_items [] = refl
texts_of-text_items (t ∷ rest) = rw (texts_of-text_items rest) refl

or_coordination-passes :
    (x : Result CoordinationError (Unit {0})) → or_coordination x ≡ ok tt → x ≡ ok tt
unfolding or_coordination
or_coordination-passes (ok u) h = refl
or_coordination-passes (err e) h = cc

checked_coordination-passes :
    (d : Coordination) {c : Coordination}
    → checked_coordination d ≡ ok c
    → check_coordination c ≡ ok tt
unfolding checked_coordination
checked_coordination-passes d h =
    let (passed, same) = >>-ok (or_coordination (check_coordination d)) _ h in
    subst (λ c. check_coordination c ≡ ok tt) (ok-injective same)
      (or_coordination-passes (check_coordination d) passed)

later_coordination-checked :
    (raw : Fields) (ps : List Text) (m t u v : Text) {c : Coordination}
    → later_coordination raw ps m t u v ≡ ok c
    → check_coordination c ≡ ok tt
unfolding later_coordination
later_coordination-checked raw ps mo t u v h =
    let (g, e₇, h₇) = >>=-ok (text_field (text "hypothesis") (get raw (text "hypothesis"))) _ h in
    let (i, e₈, h₈) = >>=-ok (text_field (text "recovery") (get raw (text "recovery"))) _ h₇ in
    let (j, e₉, h₉) = >>=-ok (text_field (text "question") (get raw (text "question"))) _ h₈ in
    let (k, e₁₀, h₁₀) = >>=-ok (text_field (text "artifact") (get raw (text "artifact"))) _ h₉ in
    let (l, e₁₁, h₁₁) = >>=-ok (text_field (text "recipe") (get raw (text "recipe"))) _ h₁₀ in
    let (m, e₁₂, h₁₂) =
      >>=-ok (number_field (text "attempts") 2 (get raw (text "attempts"))) _ h₁₁ in
    let (n, e₁₃, h₁₃) =
      >>=-ok (number_field (text "allowance") 900 (get raw (text "allowance"))) _ h₁₂ in
    let loaded : Coordination = record {
      mode = mo;
      recipient = t;
      parent_task = u;
      parent_subject = v;
      hypothesis = g;
      attempts = m;
      allowance = n;
      recovery = i;
      question = j;
      artifact = k;
      recipe = l;
      prerequisites = ps;
    } in
    checked_coordination-passes loaded h₁₃

-- What a coordination that was loaded has passed.
pub coordination_of-checked :
    (raw : Fields) {c : Coordination} → coordination_of raw ≡ ok c → check_coordination c ≡ ok tt
unfolding coordination_of
coordination_of-checked raw h =
    let (known, h₁) = refuse_if-ok (not (names_known raw)) _ _ h in
    let (p, e₂, h₂) = >>=-ok (prerequisites_of (get raw (text "prerequisites"))) _ h₁ in
    let (a, e₃, h₃) = >>=-ok (text_field (text "mode") (get raw (text "mode"))) _ h₂ in
    let (b, e₄, h₄) = >>=-ok (text_field (text "recipient") (get raw (text "recipient"))) _ h₃ in
    let (d, e₅, h₅) =
      >>=-ok (text_field (text "parent_task") (get raw (text "parent_task"))) _ h₄ in
    let (f, e₆, h₆) =
      >>=-ok (text_field (text "parent_subject") (get raw (text "parent_subject"))) _ h₅ in
    later_coordination-checked raw p a b d f h₆

pub coordination_of-fields :
    (c : Coordination)
    → check_coordination c ≡ ok tt
    → coordination_of (coordination_fields c) ≡ ok c
unfolding coordination_of later_coordination checked_coordination coordination_fields names_known
    prerequisites_of text_field number_field get ◌==◌ member or_coordination
coordination_of-fields c h = rw (texts_of-text_items c.prerequisites, h) refl
