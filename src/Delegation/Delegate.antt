-- ===== src/Delegation/Delegate.antt =====
-- `delegate` and `recover_delegation`, each under the lock of the journal. `now` is the time that the
-- appended rows get, in microseconds: a whole second in `delegate`.
use idol_id_agents.Prelude.{
  ℕ, Text, text, Bool, false, ◌&&◌, List, [], ◌∷◌, not, ◌==◌, Option, none, some, Json, Fields, obj,
  str, num, get, is_text, Result, ok, err, ◌>>=◌, ◌>>◌, refuse_if, if◌then◌else◌,
}
use idol_id_agents.Model.{WorkOrder, Coordination}
use idol_id_agents.Model.Encode.{fields_of, order_mapping}
use idol_id_agents.Journal.{Row, Codec, next_row}
use idol_id_agents.Delegation.{
  Outside, CoordinationRefusal, other_parent, other_owner, other_repository, not_accepted,
  unknown_event, missing_key, require_exact_subject, declaration, fact_of, last_row, add_row,
}
use idol_id_agents.Delegation.Subjects.{assignment_subject}
use idol_id_agents.Delegation.Acknowledge.{acked}
use idol_id_agents.Delegation.Queue.{Slot, Queue, queue_content, publish}

abbrev pub delegated : Text
delegated = text "assignment.delegated"

abbrev pub queued : Text
queued = text "assignment.queued"

-- What the calls change: the rows of the journal and the directory of the work orders.
pub record Desk : Type 0 where
  pub rows : List Row
  pub queue : Queue

abbrev pub Outcome : Type 0
Outcome = Result CoordinationRefusal Row × Desk

abbrev pub names_ack : Text → Option Fields → Bool
names_ack parent_ack none = false
names_ack parent_ack (some fact) = is_text (get fact (text "parent_ack")) parent_ack

unfoldable pub queued_fact : Text → Json → Json → Text → Fields
queued_fact event task_id subject target = fields_of (
    (text "delegation_event", str event)
    ∷ (text "task_id", task_id)
    ∷ (text "assignment_subject", subject)
    ∷ (text "queue_path", str target)
    ∷ [])

abbrev pub conclude : Row → List Row → Queue → Result CoordinationRefusal (List Row) → Outcome
conclude row rows queue (err e) = (err e, record { rows = rows; queue = queue })
conclude row rows queue (ok marked) = (ok row, record { rows = marked; queue = queue })

-- `next(row for row in transaction.events({"assignment.delegated"}) if row["hash"] == event)`.
unfoldable pub delegation_row : Text → List Row → Option Row
unfolding ◌==◌
delegation_row event [] = none
delegation_row event (row ∷ rest) =
    let later = delegation_row event rest in
    if (row.kind == delegated) && (row.hash == event) then some row else later

-- `row["fact"][key]`.
unfoldable pub key_of : Json → Text → Option Json
unfolding get
key_of fact key = elim (fact_of fact) [ none ↦ none | some fs ↦ get fs key ]

abbrev pub under_ack : Text → Option Row → Option Row
under_ack parent_ack none = none
under_ack parent_ack (some prior) =
    if names_ack parent_ack (fact_of prior.fact) then some prior else none

module _ (w : Outside) where
  -- The tests of `delegate` before the transaction.
  unfoldable pub check_parent :
      WorkOrder → WorkOrder → Text → Result CoordinationRefusal Coordination
  unfolding declaration require_exact_subject assignment_subject ◌==◌
  check_parent parent child owner = do
    parent_coordination ← declaration parent
    child_coordination ← declaration child
    require_exact_subject w parent
    require_exact_subject w child
    refuse_if
        (not (
          (child_coordination.parent_task == parent.task_id)
          && (child_coordination.parent_subject == assignment_subject w parent)))
        other_parent
    refuse_if (not (owner == parent_coordination.recipient)) other_owner
    refuse_if (not (child.repository == parent.repository)) other_repository
    ok child_coordination

  -- The row that accepts the parent.
  unfoldable pub accepted_row : WorkOrder → Text → List Row → Option Row
  unfolding last_row assignment_subject
  accepted_row parent owner =
      last_row acked
        ((text "assignment_subject", assignment_subject w parent) ∷ (text "recipient", owner) ∷ [])

  unfoldable pub delegation_fact : WorkOrder → WorkOrder → Text → Coordination → Text → Fields
  unfolding assignment_subject order_mapping queue_content
  delegation_fact parent child owner child_coordination parent_ack = fields_of (
      (text "schema", str (text "idol.fleet.delegation.v1"))
      ∷ (text "parent_task", str parent.task_id)
      ∷ (text "parent_subject", str (assignment_subject w parent))
      ∷ (text "parent_ack", str parent_ack)
      ∷ (text "owner", str owner)
      ∷ (text "task_id", str child.task_id)
      ∷ (text "order_id", str child.id)
      ∷ (text "assignment_subject", str (assignment_subject w child))
      ∷ (text "recipient", str child_coordination.recipient)
      ∷ (text "source", str (text "local-cli"))
      ∷ (text "uid", num w.uid)
      ∷ (text "work_order", obj (order_mapping child))
      ∷ (text "queue_sha256", str (w.sha256 (queue_content w child)))
      ∷ [])

  -- The delegation of the child that the journal has under this acceptance.
  unfoldable pub prior_row : WorkOrder → Text → List Row → Option Row
  unfolding last_row assignment_subject
  prior_row child parent_ack rows =
      under_ack parent_ack
        (last_row delegated ((text "assignment_subject", assignment_subject w child) ∷ []) rows)

module _ (c : Codec) where
  abbrev pub record_once : Fields → ℕ → List Row → Option Row → Row × List Row
  record_once fact now rows (some prior) = (prior, rows)
  record_once fact now rows none =
      (next_row c rows delegated fact now, add_row c delegated fact now rows)

  -- The append to a journal without the event, which fails where a key of the fact is missing.
  unfoldable pub add_queued :
      Text → Option Json → Option Json → Text → ℕ → List Row → Result CoordinationRefusal (List Row)
  unfolding queued_fact
  add_queued event (some task_id) (some subject) target now rows =
      ok (add_row c queued (queued_fact event task_id subject target) now rows)
  add_queued event none subject target now rows = err missing_key
  add_queued event (some task_id) none target now rows = err missing_key

  abbrev pub mark_missing :
      Text
      → Option Json
      → Option Json
      → Text
      → ℕ
      → List Row
      → Option Row
      → Result CoordinationRefusal (List Row)
  mark_missing event task_id subject target now rows (some row) = ok rows
  mark_missing event task_id subject target now rows none =
      add_queued event task_id subject target now rows

  -- `transaction.append("assignment.queued", …)`, once for each event.
  unfoldable pub mark_queued :
      Text → Option Json → Option Json → Text → ℕ → List Row → Result CoordinationRefusal (List Row)
  unfolding last_row add_queued
  mark_queued event task_id subject target now rows =
      mark_missing event task_id subject target now rows
        (last_row queued ((text "delegation_event", event) ∷ []) rows)

  -- The part of both calls behind the publication.
  unfoldable pub finish :
      Row
      → Option Json
      → Option Json
      → ℕ
      → List Row
      → Result CoordinationRefusal Text × Queue
      → Outcome
  unfolding mark_queued
  finish row task_id subject now rows (err e, queue) =
      (err e, record { rows = rows; queue = queue })
  finish row task_id subject now rows (ok target, queue) =
      conclude row rows queue (mark_queued row.hash task_id subject target now rows)

module _ (c : Codec) (w : Outside) where
  -- `prior`, and the rows behind it: the journal records the delegation first.
  unfoldable pub intend :
      WorkOrder → WorkOrder → Text → Coordination → Text → ℕ → List Row → Row × List Row
  unfolding prior_row delegation_fact
  intend parent child owner child_coordination parent_ack now rows =
      record_once c (delegation_fact w parent child owner child_coordination parent_ack) now rows
        (prior_row w child parent_ack rows)

  unfoldable pub delegate_accepted :
      WorkOrder → WorkOrder → Text → Coordination → Text → ℕ → Slot → Desk → Outcome
  unfolding intend publish finish assignment_subject
  delegate_accepted parent child owner child_coordination parent_ack now race desk =
      let (prior, rows) = intend parent child owner child_coordination parent_ack now desk.rows in
      finish c prior (some (str child.task_id)) (some (str (assignment_subject w child))) now rows
        (publish w prior.fact race desk.queue)

  abbrev pub delegate_found :
      WorkOrder → WorkOrder → Text → Coordination → ℕ → Slot → Desk → Option Row → Outcome
  delegate_found parent child owner child_coordination now race desk none = (err not_accepted, desk)
  delegate_found parent child owner child_coordination now race desk (some accepted) =
      delegate_accepted parent child owner child_coordination accepted.hash now race desk

  abbrev pub delegate_checked :
      WorkOrder
      → WorkOrder
      → Text
      → ℕ
      → Slot
      → Desk
      → Result CoordinationRefusal Coordination
      → Outcome
  delegate_checked parent child owner now race desk (err e) = (err e, desk)
  delegate_checked parent child owner now race desk (ok child_coordination) =
      delegate_found parent child owner child_coordination now race desk
        (accepted_row w parent owner desk.rows)

  -- `delegate`. `race` is what another process puts under the name meanwhile.
  unfoldable pub delegate : WorkOrder → WorkOrder → Text → ℕ → Slot → Desk → Outcome
  unfolding check_parent accepted_row delegate_accepted
  delegate parent child owner now race desk =
      delegate_checked parent child owner now race desk (check_parent w parent child owner)

  abbrev pub recover_row : ℕ → Slot → Desk → Option Row → Outcome
  recover_row now race desk none = (err unknown_event, desk)
  recover_row now race desk (some row) =
      finish c row (key_of row.fact (text "task_id")) (key_of row.fact (text "assignment_subject"))
        now desk.rows (publish w row.fact race desk.queue)

  -- `recover_delegation`.
  unfoldable pub recover : Text → ℕ → Slot → Desk → Outcome
  unfolding delegation_row key_of publish finish
  recover event now race desk = recover_row now race desk (delegation_row event desk.rows)
