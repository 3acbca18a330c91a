-- ===== src/Model/Decode/Declared.antt =====
-- `Coordination.from_mapping`.
use idol_id_agents.Prelude.{
  ℕ, Text, text, Bool, true, ◌&&◌, not, List, [], ◌∷◌, Option, none, some, Json, Items, Fields, num,
  str, arr, nil, cons, end, field, get, Result, ok, err, refuse_if, ◌>>=◌, ◌>>◌,
}
use idol_id_agents.Model.{Coordination}
use idol_id_agents.Model.Atoms.{member}
use idol_id_agents.Model.Orders.{check_coordination}
use idol_id_agents.Model.Decode.{
  DecodeError, not_an_array, unknown_fields, field_type, or_coordination,
}

-- A field of a coordination: its default, or a value of its type.
unfoldable pub text_field : Text → Option Json → Result DecodeError Text
text_field label none = ok []
text_field label (some (str s)) = ok s
text_field label (some other) = err (field_type label)

unfoldable pub number_field : Text → ℕ → Option Json → Result DecodeError ℕ
number_field label default none = ok default
number_field label default (some (num n)) = ok n
number_field label default (some other) = err (field_type label)

unfoldable pub texts_of : Items → Result DecodeError (List Text)
texts_of nil = ok []
texts_of (cons (str s) rest) = texts_of rest >>= λ later. ok (s ∷ later)
texts_of (cons other rest) = err (field_type (text "prerequisites"))

unfoldable pub prerequisites_of : Option Json → Result DecodeError (List Text)
unfolding texts_of
prerequisites_of none = ok []
prerequisites_of (some (arr items)) = texts_of items
prerequisites_of (some other) = err (not_an_array (text "prerequisites"))

abbrev pub coordination_names : List Text
coordination_names =
    text "mode"
    ∷ text "recipient"
    ∷ text "parent_task"
    ∷ text "parent_subject"
    ∷ text "hypothesis"
    ∷ text "attempts"
    ∷ text "allowance"
    ∷ text "recovery"
    ∷ text "question"
    ∷ text "artifact"
    ∷ text "recipe"
    ∷ text "prerequisites"
    ∷ []

-- `not (set(raw) - names)`.
unfoldable pub names_known : Fields → Bool
unfolding member
names_known end = true
names_known (field k v rest) = member k coordination_names && names_known rest

-- The constructor's checks, which end the decoding.
unfoldable pub checked_coordination : Coordination → Result DecodeError Coordination
unfolding or_coordination check_coordination
checked_coordination c = or_coordination (check_coordination c) >> ok c

-- The fields from `hypothesis` on.
unfoldable pub later_coordination :
    Fields → List Text → Text → Text → Text → Text → Result DecodeError Coordination
unfolding get text_field number_field checked_coordination
later_coordination raw prerequisites mode recipient parent_task parent_subject = do
  hypothesis ← text_field (text "hypothesis") (get raw (text "hypothesis"))
  recovery ← text_field (text "recovery") (get raw (text "recovery"))
  question ← text_field (text "question") (get raw (text "question"))
  artifact ← text_field (text "artifact") (get raw (text "artifact"))
  recipe ← text_field (text "recipe") (get raw (text "recipe"))
  attempts ← number_field (text "attempts") 2 (get raw (text "attempts"))
  allowance ← number_field (text "allowance") 900 (get raw (text "allowance"))
  checked_coordination (record {
    mode = mode;
    recipient = recipient;
    parent_task = parent_task;
    parent_subject = parent_subject;
    hypothesis = hypothesis;
    attempts = attempts;
    allowance = allowance;
    recovery = recovery;
    question = question;
    artifact = artifact;
    recipe = recipe;
    prerequisites = prerequisites;
  })

-- `Coordination.from_mapping`.
unfoldable pub coordination_of : Fields → Result DecodeError Coordination
unfolding get text_field prerequisites_of names_known later_coordination
coordination_of raw = do
  refuse_if (not (names_known raw)) unknown_fields
  prerequisites ← prerequisites_of (get raw (text "prerequisites"))
  mode ← text_field (text "mode") (get raw (text "mode"))
  recipient ← text_field (text "recipient") (get raw (text "recipient"))
  parent_task ← text_field (text "parent_task") (get raw (text "parent_task"))
  parent_subject ← text_field (text "parent_subject") (get raw (text "parent_subject"))
  later_coordination raw prerequisites mode recipient parent_task parent_subject
