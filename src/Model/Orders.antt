-- ===== src/Model/Orders.antt =====
-- `WorkOrder.__post_init__` and `Coordination.__post_init__`: the refusals in the source's order.
use idol_id_agents.Prelude.{
  ℕ, ◌+◌, Text, text, Bool, ◌&&◌, ◌||◌, not, List, [], ◌∷◌, ◌++◌, all, any, is_empty, nat_eq, ltb,
  leb, length, Result, first_refusal, if◌then◌else◌,
}
use idol_id_agents.Strings.{strip}
use idol_id_agents.Model.{WorkOrder, Coordination}
use idol_id_agents.Model.Atoms.{is_atom, is_sha, is_digest, member, distinct}
use idol_id_agents.Model.Paths.{relative_path_ok, semantic_target_ok, branch_ok}

pub data OrderError : Type 0 where
  invalid_id invalid_task_id invalid_role inexact_base_sha invalid_branch : OrderError
  outcome_required claims_required invalid_path invalid_semantic_target : OrderError
  stop_conditions_required witnesses_required routes_required : OrderError
  unsupported_risk priority_bounds estimated_seconds_bounds tokens_not_positive : OrderError
  no_change_role : OrderError

abbrev pub risks : List Text
risks = text "low" ∷ text "medium" ∷ text "high" ∷ text "critical" ∷ []

abbrev pub evidence_roles : List Text
evidence_roles = text "counterexample" ∷ text "evidence" ∷ text "observer" ∷ text "reviewer" ∷ []

-- The tests in the source's order, each with its refusal.
unfoldable pub order_refusals : WorkOrder → List (Bool × OrderError)
order_refusals o =
    (not (is_atom o.id), invalid_id)
    ∷ (not (is_atom o.task_id), invalid_task_id)
    ∷ (not (is_atom o.role), invalid_role)
    ∷ (not (is_sha o.base_sha), inexact_base_sha)
    ∷ (not (branch_ok o.branch), invalid_branch)
    ∷ (is_empty (strip o.required_outcome), outcome_required)
    ∷ (is_empty o.path_claims || is_empty o.semantic_claims, claims_required)
    ∷ (not (all relative_path_ok (o.path_claims ++ o.authority_files)), invalid_path)
    ∷ (not (all semantic_target_ok o.semantic_claims), invalid_semantic_target)
    ∷ (is_empty o.stop_conditions, stop_conditions_required)
    ∷ (is_empty o.witnesses || any is_empty o.witnesses, witnesses_required)
    ∷ (is_empty o.route_ids, routes_required)
    ∷ (not (member o.risk risks), unsupported_risk)
    ∷ (ltb o.priority 1 || ltb 100 o.priority, priority_bounds)
    ∷ (ltb o.estimated_seconds 1 || ltb 172800 o.estimated_seconds, estimated_seconds_bounds)
    ∷ (ltb o.estimated_tokens 1, tokens_not_positive)
    ∷ (o.allow_no_change && not (member o.role evidence_roles), no_change_role)
    ∷ []

unfoldable pub check_order : WorkOrder → Result OrderError (Unit {0})
unfolding order_refusals first_refusal branch_ok strip
check_order o = first_refusal (order_refusals o)

pub data CoordinationError : Type 0 where
  unbounded_text unbounded_number invalid_artifact inexact_prerequisite : CoordinationError
  prerequisites_bounds : CoordinationError

-- `len(value.encode("utf-8"))`.
pub utf8_length : Text → ℕ
utf8_length [] = 0
utf8_length (c ∷ rest) =
    (if ltb c 0x80 then 1 else if ltb c 0x800 then 2 else if ltb c 0x10000 then 3 else 4)
    + utf8_length rest

unfoldable pub bounded_text : Text → Bool
unfolding utf8_length
bounded_text value =
    leb (utf8_length value) 16384
    && not (any (λ c. nat_eq c 0 || (leb 0xD800 c && leb c 0xDFFF)) value)

-- The tests in the source's order, each with its refusal.
unfoldable pub coordination_refusals : Coordination → List (Bool × CoordinationError)
coordination_refusals c =
    (
      not (
          all bounded_text (
            c.mode ∷ c.recipient ∷ c.parent_task ∷ c.parent_subject ∷ c.hypothesis ∷ c.recovery
            ∷ c.question ∷ c.artifact ∷ c.recipe ∷ [])),
      unbounded_text,
    )
    ∷ (not (leb c.attempts 2147483647 && leb c.allowance 2147483647), unbounded_number)
    ∷ (not (is_empty c.artifact) && not (relative_path_ok c.artifact), invalid_artifact)
    ∷ (not (all is_digest c.prerequisites), inexact_prerequisite)
    ∷ (ltb 32 (length c.prerequisites) || not (distinct c.prerequisites), prerequisites_bounds)
    ∷ []

unfoldable pub check_coordination : Coordination → Result CoordinationError (Unit {0})
unfolding coordination_refusals first_refusal
check_coordination c = first_refusal (coordination_refusals c)
