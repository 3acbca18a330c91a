-- ===== src/Model/Encode.antt =====
-- `order_mapping` of fleet_control/coordination.py: `asdict` of a work order, with its repository as a
-- text. `json.dumps` sorts the keys, so their order is the one of the fields.
use idol_id_agents.Prelude.{
  Text, text, List, [], ◌∷◌, Option, none, some, Json, Items, Fields, null, bool, num, str, arr,
  obj, nil, cons, end, field,
}
use idol_id_agents.Model.{WorkOrder, Coordination}

abbrev pub fields_of : List (Text × Json) → Fields
fields_of [] = end
fields_of ((k, v) ∷ rest) = field k v (fields_of rest)

unfoldable pub text_items : List Text → Items
text_items [] = nil
text_items (t ∷ rest) = cons (str t) (text_items rest)

unfoldable pub command_items : List (List Text) → Items
unfolding text_items
command_items [] = nil
command_items (c ∷ rest) = cons (arr (text_items c)) (command_items rest)

abbrev pub optional_text : Option Text → Json
optional_text none = null
optional_text (some t) = str t

unfoldable pub coordination_fields : Coordination → Fields
unfolding text_items
coordination_fields c = fields_of (
    (text "mode", str c.mode)
    ∷ (text "recipient", str c.recipient)
    ∷ (text "parent_task", str c.parent_task)
    ∷ (text "parent_subject", str c.parent_subject)
    ∷ (text "hypothesis", str c.hypothesis)
    ∷ (text "attempts", num c.attempts)
    ∷ (text "allowance", num c.allowance)
    ∷ (text "recovery", str c.recovery)
    ∷ (text "question", str c.question)
    ∷ (text "artifact", str c.artifact)
    ∷ (text "recipe", str c.recipe)
    ∷ (text "prerequisites", arr (text_items c.prerequisites))
    ∷ [])

unfoldable pub coordination_json : Option Coordination → Json
unfolding coordination_fields
coordination_json none = null
coordination_json (some c) = obj (coordination_fields c)

-- `order_mapping`.
unfoldable pub order_mapping : WorkOrder → Fields
unfolding text_items command_items coordination_json
order_mapping o = fields_of (
    (text "id", str o.id)
    ∷ (text "task_id", str o.task_id)
    ∷ (text "repository", str o.repository)
    ∷ (text "base_sha", str o.base_sha)
    ∷ (text "branch", str o.branch)
    ∷ (text "role", str o.role)
    ∷ (text "required_outcome", str o.required_outcome)
    ∷ (text "path_claims", arr (text_items o.path_claims))
    ∷ (text "semantic_claims", arr (text_items o.semantic_claims))
    ∷ (text "stop_conditions", arr (text_items o.stop_conditions))
    ∷ (text "witnesses", arr (command_items o.witnesses))
    ∷ (text "route_ids", arr (text_items o.route_ids))
    ∷ (text "authority_files", arr (text_items o.authority_files))
    ∷ (text "risk", str o.risk)
    ∷ (text "priority", num o.priority)
    ∷ (text "estimated_seconds", num o.estimated_seconds)
    ∷ (text "estimated_tokens", num o.estimated_tokens)
    ∷ (text "reviewer_family", optional_text o.reviewer_family)
    ∷ (text "issue", optional_text o.issue)
    ∷ (text "publish_branch", bool o.publish_branch)
    ∷ (text "create_draft_pr", bool o.create_draft_pr)
    ∷ (text "follow_remote_main", bool o.follow_remote_main)
    ∷ (text "allow_no_change", bool o.allow_no_change)
    ∷ (text "coordination", coordination_json o.coordination)
    ∷ [])
