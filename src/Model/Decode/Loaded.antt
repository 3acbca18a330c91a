-- ===== src/Model/Decode/Loaded.antt =====
-- `WorkOrder.from_mapping`.
use idol_id_agents.Prelude.{
  ℕ, Text, text, true, false, not, List, [], ◌∷◌, is_empty, Option, none, some, Json, Items, Fields,
  null, num, str, arr, obj, nil, cons, get, is_falsy, Result, ok, err, refuse_if, ◌>>=◌, ◌>>◌,
  if◌then◌else◌,
}
use idol_id_agents.Strings.{strip}
use idol_id_agents.Model.{WorkOrder, Coordination}
use idol_id_agents.Model.Orders.{check_order}
use idol_id_agents.Model.Decode.{
  DecodeError, repository_not_absolute, not_an_object, not_an_array, empty_item, not_a_number,
  Readers, lower, is_true_at, or_order,
}
use idol_id_agents.Model.Decode.Declared.{coordination_of}

module _ (r : Readers) where
  unfoldable pub str_json : Json → Text
  str_json (str s) = s
  str_json other = r.str_of other

  -- `str(raw.get(key, default)).strip()`.
  unfoldable pub text_at : Option Json → Text
  unfolding str_json strip
  text_at none = []
  text_at (some v) = strip (str_json v)

  unfoldable pub strings_of : Text → Items → Result DecodeError (List Text)
  unfolding str_json strip
  strings_of label nil = ok []
  strings_of label (cons v rest) = strings_of label rest >>= λ later.
      (if is_empty (strip (str_json v))
        then err (empty_item label)
        else ok (strip (str_json v) ∷ later))

  -- `string_tuple`, of a value that may be missing.
  unfoldable pub string_tuple : Text → Option Json → Result DecodeError (List Text)
  unfolding strings_of
  string_tuple label (some (arr items)) = strings_of label items
  string_tuple label none = err (not_an_array label)
  string_tuple label (some other) = err (not_an_array label)

  unfoldable pub commands_of : Items → Result DecodeError (List (List Text))
  unfolding string_tuple
  commands_of nil = ok []
  commands_of (cons v rest) = do
    command ← string_tuple (text "witness command") (some v)
    later ← commands_of rest
    ok (command ∷ later)

  unfoldable pub witnesses_of : Option Json → Result DecodeError (List (List Text))
  unfolding commands_of
  witnesses_of (some (arr items)) = commands_of items
  witnesses_of none = err (not_an_array (text "witnesses"))
  witnesses_of (some other) = err (not_an_array (text "witnesses"))

  -- `int(raw.get(key, default))`.
  unfoldable pub int_at : Text → ℕ → Option Json → Result DecodeError ℕ
  int_at label default none = ok default
  int_at label default (some (num n)) = ok n
  int_at label default (some other) = elim (r.int_of other) [
    | some n ↦ ok n
    | none ↦ err (not_a_number label)
  ]

  -- `str(value).strip() if value else None`.
  unfoldable pub filled_at : Option Json → Option Text
  unfolding is_falsy str_json strip
  filled_at none = none
  filled_at (some v) = if is_falsy v then none else some (strip (str_json v))

  -- `str(raw.get("risk", "high")).lower()`.
  unfoldable pub risk_at : Option Json → Text
  unfolding str_json
  risk_at none = text "high"
  risk_at (some v) = lower (str_json v)

  unfoldable pub repository_at : Option Json → Text
  unfolding str_json
  repository_at none = r.path_of []
  repository_at (some v) = r.path_of (str_json v)

  unfoldable pub coordination_at : Option Json → Result DecodeError (Option Coordination)
  unfolding coordination_of
  coordination_at none = ok none
  coordination_at (some null) = ok none
  coordination_at (some (obj fs)) = coordination_of fs >>= λ c. ok (some c)
  coordination_at (some other) = err (not_an_object (text "coordination"))

  unfoldable pub checked_order : WorkOrder → Result DecodeError WorkOrder
  unfolding or_order check_order
  checked_order o = or_order (check_order o) >> ok o

  -- The fields from `route_ids` on.
  unfoldable pub later_order :
      Fields
      → Text
      → List (List Text)
      → List Text
      → List Text
      → List Text
      → Result DecodeError WorkOrder
  unfolding get text_at string_tuple risk_at int_at filled_at coordination_at checked_order
  later_order raw repository witnesses path_claims semantic_claims stop_conditions = do
    route_ids ← string_tuple (text "route_ids") (get raw (text "route_ids"))
    authority_files ← string_tuple (text "authority_files") (get raw (text "authority_files"))
    priority ← int_at (text "priority") 50 (get raw (text "priority"))
    estimated_seconds ← int_at (text "estimated_seconds") 900 (get raw (text "estimated_seconds"))
    estimated_tokens ← int_at (text "estimated_tokens") 10000 (get raw (text "estimated_tokens"))
    coordination ← coordination_at (get raw (text "coordination"))
    checked_order (record {
      id = text_at (get raw (text "id"));
      task_id = text_at (get raw (text "task_id"));
      repository = repository;
      base_sha = text_at (get raw (text "base_sha"));
      branch = text_at (get raw (text "branch"));
      role = text_at (get raw (text "role"));
      required_outcome = text_at (get raw (text "required_outcome"));
      path_claims = path_claims;
      semantic_claims = semantic_claims;
      stop_conditions = stop_conditions;
      witnesses = witnesses;
      route_ids = route_ids;
      authority_files = authority_files;
      risk = risk_at (get raw (text "risk"));
      priority = priority;
      estimated_seconds = estimated_seconds;
      estimated_tokens = estimated_tokens;
      reviewer_family = filled_at (get raw (text "reviewer_family"));
      issue = filled_at (get raw (text "issue"));
      publish_branch = is_true_at (get raw (text "publish_branch")) true;
      create_draft_pr = is_true_at (get raw (text "create_draft_pr")) true;
      follow_remote_main = is_true_at (get raw (text "follow_remote_main")) false;
      allow_no_change = is_true_at (get raw (text "allow_no_change")) false;
      coordination = coordination;
    })

  -- `WorkOrder.from_mapping`.
  unfoldable pub order_of : Fields → Result DecodeError WorkOrder
  unfolding get repository_at witnesses_of string_tuple later_order
  order_of raw = do
    let repository = repository_at (get raw (text "repository"))
    refuse_if (not (r.is_absolute repository)) repository_not_absolute
    witnesses ← witnesses_of (get raw (text "witnesses"))
    path_claims ← string_tuple (text "path_claims") (get raw (text "path_claims"))
    semantic_claims ← string_tuple (text "semantic_claims") (get raw (text "semantic_claims"))
    stop_conditions ← string_tuple (text "stop_conditions") (get raw (text "stop_conditions"))
    later_order raw repository witnesses path_claims semantic_claims stop_conditions
