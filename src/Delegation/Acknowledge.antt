-- ===== src/Delegation/Acknowledge.antt =====
-- `acknowledge`: a recipient accepts an assignment.
use idol_id_agents.Prelude.{
  ℕ, ◌+◌, ◌*◌, Text, text, false, ◌&&◌, List, [], ◌∷◌, not, leb, length, is_empty, Fields, obj, str,
  num, Result, ok, ◌>>=◌, ◌>>◌, refuse_if,
}
use idol_id_agents.Model.{WorkOrder, Coordination, Route, second}
use idol_id_agents.Model.Encode.{fields_of, order_mapping}
use idol_id_agents.Journal.{Row, Codec, next_row}
use idol_id_agents.Delegation.{
  Outside, CoordinationRefusal, ttl_bounds, recipient_required, require_exact_subject, declaration,
  add_row,
}
use idol_id_agents.Delegation.Subjects.{
  assignment_subject, scope_subject, route_subject, dependency_subject,
}

abbrev pub acked : Text
acked = text "assignment.ack"

-- The fact of an acknowledgement at second `now`.
unfoldable pub ack_fact : Outside → WorkOrder → Route → Text → ℕ → ℕ → Coordination → Text → Fields
unfolding assignment_subject scope_subject route_subject order_mapping
ack_fact w o route recipient ttl now coordination dependency = fields_of (
    (text "schema", str (text "idol.fleet.assignment-ack.v1"))
    ∷ (text "task_id", str o.task_id)
    ∷ (text "order_id", str o.id)
    ∷ (text "assignment_subject", str (assignment_subject w o))
    ∷ (text "scope_subject", str (scope_subject w o))
    ∷ (text "base_sha", str o.base_sha)
    ∷ (text "mode", str coordination.mode)
    ∷ (text "recipient", str recipient)
    ∷ (text "parent_task", str coordination.parent_task)
    ∷ (text "parent_subject", str coordination.parent_subject)
    ∷ (text "dependency_subject", str dependency)
    ∷ (text "route_subject", str (route_subject w route))
    ∷ (text "route_id", str route.id)
    ∷ (text "provider", str route.provider)
    ∷ (text "model", str route.model)
    ∷ (text "accepted_at", num now)
    ∷ (text "expires_at", num (now + ttl))
    ∷ (text "source", str (text "local-cli"))
    ∷ (text "uid", num w.uid)
    ∷ (text "accepted_order", obj (order_mapping o))
    ∷ [])

-- `acknowledge`, on the rows of the journal.
unfoldable pub acknowledge :
    Codec
    → Outside
    → WorkOrder
    → Route
    → Text
    → ℕ
    → ℕ
    → List Row
    → Result CoordinationRefusal (Row × List Row)
unfolding declaration require_exact_subject dependency_subject ack_fact
acknowledge c w o route recipient ttl now rows = do
  coordination ← declaration o
  refuse_if (not (leb 30 ttl && leb ttl 86400)) ttl_bounds
  refuse_if (not (not (is_empty recipient) && leb (length recipient) 240)) recipient_required
  require_exact_subject w o
  dependency ← dependency_subject w o rows false
  let fact = ack_fact w o route recipient ttl now coordination dependency
  ok (next_row c rows acked fact (now * second), add_row c acked fact (now * second) rows)
