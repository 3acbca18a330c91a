-- ===== src/Model/Reread/Kept.antt =====
-- What each field of a work order keeps from having been loaded, and that it reads back.
use mathlib.Core.Path.{subst}
use idol_id_agents.Prelude.{
  Text, text, Bool, true, false, ◌≡◌, ◌≢◌, refl, List, [], ◌∷◌, is_empty, All, Option, none, some,
  Json, Items, null, bool, num, str, arr, obj, nil, cons, is_falsy, ok, err, >>=-ok, ok-injective,
  if◌then◌else◌,
}
use idol_id_agents.Strings.{strip}
use idol_id_agents.Model.{Coordination}
use idol_id_agents.Model.Decode.{DecodeError, Readers, lower}
use idol_id_agents.Model.Decode.Declared.{coordination_of}
use idol_id_agents.Model.Decode.Loaded.{
  str_json, text_at, strings_of, string_tuple, commands_of, witnesses_of, filled_at, risk_at,
  coordination_at,
}
use idol_id_agents.Model.Encode.{text_items, command_items, optional_text, coordination_json}
use idol_id_agents.Model.Reread.Texts.{strip-strip, lower-lower}
use idol_id_agents.Model.Reread.Declarations.{
  IsChecked, coordination_of-checked, coordination_of-fields,
}

-- An item of a list of texts that `string_tuple` gives.
abbrev pub IsItem : Text → Type 0
IsItem t = (strip t ≡ t) × (is_empty t ≡ false)

item_or_error :
    {ts : List Text} (blank : Bool) (e : DecodeError) (t : Text) (later : List Text)
    → (if blank then err e else ok (t ∷ later)) ≡ ok ts
    → (blank ≡ false) × (t ∷ later ≡ ts)
item_or_error true e t later h = cc
item_or_error false e t later h = (refl, ok-injective h)

-- A text that is absent, or filled.
abbrev pub IsOptional : Option Text → Type 0
IsOptional none = Unit
IsOptional (some t) = IsItem t

module _ (r : Readers) where
  pub text_at-strip : (v : Option Json) → strip (text_at r v) ≡ text_at r v
  unfolding text_at
  text_at-strip none = refl
  text_at-strip (some v) = strip-strip (str_json r v)

  strings_of-IsItem :
      (label : Text) (items : Items) {ts : List Text}
      → strings_of r label items ≡ ok ts
      → All IsItem ts
  unfolding strings_of
  strings_of-IsItem label nil h = subst (All IsItem) (ok-injective h) tt
  strings_of-IsItem label (cons v rest) h =
      let (later, found, same) = >>=-ok (strings_of r label rest) _ h in
      let (filled, e) = item_or_error (is_empty (strip (str_json r v))) _ _ later same in
      let all : All IsItem (strip (str_json r v) ∷ later) =
        ((strip-strip (str_json r v), filled), strings_of-IsItem label rest found) in
      subst (All IsItem) e all

  pub string_tuple-IsItem :
      (label : Text) (v : Option Json) {ts : List Text}
      → string_tuple r label v ≡ ok ts
      → All IsItem ts
  unfolding string_tuple
  string_tuple-IsItem label none h = cc
  string_tuple-IsItem label (some (arr items)) h = strings_of-IsItem label items h
  string_tuple-IsItem label (some null) h = cc
  string_tuple-IsItem label (some (bool b)) h = cc
  string_tuple-IsItem label (some (num n)) h = cc
  string_tuple-IsItem label (some (str t)) h = cc
  string_tuple-IsItem label (some (obj fs)) h = cc

  commands_of-IsItem :
      (items : Items) {cs : List (List Text)} → commands_of r items ≡ ok cs → All (All IsItem) cs
  unfolding commands_of
  commands_of-IsItem nil h = subst (All (All IsItem)) (ok-injective h) tt
  commands_of-IsItem (cons v rest) h =
      let (command, e₁, h₁) = >>=-ok (string_tuple r (text "witness command") (some v)) _ h in
      let (later, e₂, h₂) = >>=-ok (commands_of r rest) _ h₁ in
      let all : All (All IsItem) (command ∷ later) =
        (string_tuple-IsItem (text "witness command") (some v) e₁, commands_of-IsItem rest e₂) in
      subst (All (All IsItem)) (ok-injective h₂) all

  pub witnesses_of-IsItem :
      (v : Option Json) {cs : List (List Text)} → witnesses_of r v ≡ ok cs → All (All IsItem) cs
  unfolding witnesses_of
  witnesses_of-IsItem none h = cc
  witnesses_of-IsItem (some (arr items)) h = commands_of-IsItem items h
  witnesses_of-IsItem (some null) h = cc
  witnesses_of-IsItem (some (bool b)) h = cc
  witnesses_of-IsItem (some (num n)) h = cc
  witnesses_of-IsItem (some (str t)) h = cc
  witnesses_of-IsItem (some (obj fs)) h = cc

  pub risk_at-lower : (v : Option Json) → lower (risk_at r v) ≡ risk_at r v
  unfolding risk_at
  risk_at-lower none = refl
  risk_at-lower (some v) = lower-lower (str_json r v)

  optional_cases :
      (falsy : Bool) (t : Text)
      → strip t ≡ t
      → (if falsy then none else some t) ≢ some []
      → IsOptional (if falsy then none else some t)
  optional_cases true t h filled = tt
  optional_cases false [] h filled = absurd (filled refl)
  optional_cases false (c ∷ t) h filled = (h, refl)

  pub filled_at-IsOptional :
      (v : Option Json) → filled_at r v ≢ some [] → IsOptional (filled_at r v)
  unfolding filled_at
  filled_at-IsOptional none filled = tt
  filled_at-IsOptional (some v) filled =
      optional_cases (is_falsy v) (strip (str_json r v)) (strip-strip (str_json r v)) filled

  pub coordination_at-IsChecked :
      (v : Option Json) {c : Option Coordination} → coordination_at r v ≡ ok c → IsChecked c
  unfolding coordination_at
  coordination_at-IsChecked none h = subst IsChecked (ok-injective h) tt
  coordination_at-IsChecked (some null) h = subst IsChecked (ok-injective h) tt
  coordination_at-IsChecked (some (obj fs)) h =
      let (c, found, same) = >>=-ok (coordination_of fs) _ h in
      subst IsChecked (ok-injective same) (coordination_of-checked fs found)
  coordination_at-IsChecked (some (bool b)) h = cc
  coordination_at-IsChecked (some (num n)) h = cc
  coordination_at-IsChecked (some (str t)) h = cc
  coordination_at-IsChecked (some (arr i)) h = cc

  pub strings_of-text_items :
      (label : Text) (ts : List Text) → All IsItem ts → strings_of r label (text_items ts) ≡ ok ts
  unfolding strings_of text_items str_json
  strings_of-text_items label [] h = refl
  strings_of-text_items label (t ∷ rest) h =
      rw (strings_of-text_items label rest h.1, h.0.0, h.0.1) refl

  pub commands_of-command_items :
      (cs : List (List Text)) → All (All IsItem) cs → commands_of r (command_items cs) ≡ ok cs
  unfolding commands_of command_items string_tuple
  commands_of-command_items [] h = refl
  commands_of-command_items (c ∷ rest) h =
      rw (strings_of-text_items (text "witness command") c h.0, commands_of-command_items rest h.1)
        refl

  pub filled_at-optional_text :
      (o : Option Text) → IsOptional o → filled_at r (some (optional_text o)) ≡ o
  unfolding filled_at is_falsy str_json
  filled_at-optional_text none h = refl
  filled_at-optional_text (some t) h = rw (h.1, h.0) refl

  pub coordination_at-json :
      (c : Option Coordination)
      → IsChecked c
      → coordination_at r (some (coordination_json c)) ≡ ok c
  unfolding coordination_at coordination_json
  coordination_at-json none h = refl
  coordination_at-json (some c) h = rw (coordination_of-fields c h) refl
