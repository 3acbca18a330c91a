-- ===== src/Delegation/Stranded.antt =====
-- A delegation whose order does not read back as it was.
use idol_id_agents.Prelude.{
  ℕ, Text, text, false, ◌≡◌, refl, ◌∙◌, List, Option, none, some, Json, str, obj, ◌==◌, Result, ok,
  err,
}
use idol_id_agents.Model.{WorkOrder, Coordination}
use idol_id_agents.Model.Decode.Loaded.{order_of}
use idol_id_agents.Model.Encode.{order_mapping}
use idol_id_agents.Journal.{Row, Codec}
use idol_id_agents.Delegation.{Outside, CoordinationRefusal, bytes_differ}
use idol_id_agents.Delegation.Subjects.{assignment_subject}
use idol_id_agents.Delegation.Queue.{Slot, Queue, queue_content, publish_decoded, publish}
use idol_id_agents.Delegation.Delegate.{
  Desk, delegated, check_parent, accepted_row, delegation_fact, prior_row, intend, finish,
  delegate_accepted, delegate, delegation_row, key_of, recover,
}
use idol_id_agents.Delegation.Rows.{delegation_row-append}
use idol_id_agents.Delegation.Published.{publish_order-unnamed}
use idol_id_agents.Delegation.Resumed.{new_delegation, interrupted, delegate-new}
use idol_id_agents.Delegation.Marked.{
  accepted_row-add_other, prior_row-add_delegated, delegation_fact-carries, delegation_fact-names,
}
use idol_id_agents.Delegation.Arrived.{decoded-delegation_fact, names_hash-delegation_fact}

module _ (c : Codec) (w : Outside) where
  publish-strands :
      (parent child : WorkOrder) (owner : Text) (d : Coordination) (ack : Text) (race : Slot)
      (queue : Queue) {other : WorkOrder}
      → order_of w.readers (order_mapping child) ≡ ok other
      → (w.sha256 (queue_content w child) == w.sha256 (queue_content w other)) ≡ false
      → publish w (obj (delegation_fact w parent child owner d ack)) race queue
        ≡ (err bytes_differ, queue)
  unfolding publish publish_decoded
  publish-strands parent child owner d ack race queue {other} reads differs =
      rw (decoded-delegation_fact w parent child owner d ack reads) (
        publish_order-unnamed w (some (delegation_fact w parent child owner d ack)) race other queue
          (names_hash-delegation_fact w parent child owner d ack (w.sha256 (queue_content w other))
            ∙ differs))

  finish-refuses :
      (row : Row) (t s : Option Json) (now : ℕ) (rows : List Row)
      (p : Result CoordinationRefusal Text × Queue) (queue : Queue)
      → p ≡ (err bytes_differ, queue)
      → finish c row t s now rows p ≡ (err bytes_differ, record { rows = rows; queue = queue })
  unfolding finish
  finish-refuses row t s now rows p queue h = rw h refl

  delegate-recorded :
      (parent child : WorkOrder) (owner : Text) (now : ℕ) (race : Slot) (desk : Desk)
      {d : Coordination} {accepted prior : Row}
      → check_parent w parent child owner ≡ ok d
      → accepted_row w parent owner desk.rows ≡ some accepted
      → prior_row w child accepted.hash desk.rows ≡ some prior
      → delegate c w parent child owner now race desk
        ≡ finish c prior
            (some (str child.task_id))
            (some (str (assignment_subject w child)))
            now
            desk.rows
            (publish w prior.fact race desk.queue)
  unfolding delegate delegate_accepted intend
  delegate-recorded parent child owner now race desk checked found recorded =
      rw (checked, found, recorded) refl

  -- A child whose mapping loads as an order with bytes of another hash is journaled and then
  -- refused: nothing is published, and each later call of `delegate` for it, at any time, and of
  -- `recover_delegation` on its record, if no other delegation has the hash of the record, refuses as
  -- well and changes nothing. (A blank reviewer family loads as an empty text, and its mapping as
  -- none.)
  pub delegate-strands :
      (parent child other : WorkOrder) (owner : Text) (now later : ℕ) (race again : Slot)
      (desk : Desk) {d : Coordination} {accepted : Row}
      → check_parent w parent child owner ≡ ok d
      → accepted_row w parent owner desk.rows ≡ some accepted
      → prior_row w child accepted.hash desk.rows ≡ none
      → delegation_row (new_delegation c w parent child owner d accepted now desk).hash desk.rows
        ≡ none
      → order_of w.readers (order_mapping child) ≡ ok other
      → (w.sha256 (queue_content w child) == w.sha256 (queue_content w other)) ≡ false
      → (delegate c w parent child owner now race desk
          ≡ (err bytes_differ, interrupted c w parent child owner d accepted now desk))
        × (delegate c w parent child owner later again
              (interrupted c w parent child owner d accepted now desk)
            ≡ (err bytes_differ, interrupted c w parent child owner d accepted now desk))
        × (recover c w
              (new_delegation c w parent child owner d accepted now desk).hash
              later
              again
              (interrupted c w parent child owner d accepted now desk)
            ≡ (err bytes_differ, interrupted c w parent child owner d accepted now desk))
  unfolding recover ◌==◌
  delegate-strands parent child other owner now later race again desk {d} {accepted} checked found
        new fresh reads differs =
      let fact = delegation_fact w parent child owner d accepted.hash in
      let row = new_delegation c w parent child owner d accepted now desk in
      let rows = (interrupted c w parent child owner d accepted now desk).rows in
      let t = some (str child.task_id) in
      let s = some (str (assignment_subject w child)) in
      (
        delegate-new c w parent child owner now race desk checked found new
            ∙ finish-refuses row t s now rows _ desk.queue
                (publish-strands parent child owner d accepted.hash race desk.queue reads differs),
        delegate-recorded parent child owner later again
              (interrupted c w parent child owner d accepted now desk) checked
              (accepted_row-add_other c w parent owner delegated fact now desk.rows refl ∙ found)
              (prior_row-add_delegated c w child accepted.hash fact now desk.rows
                (delegation_fact-carries w parent child owner d accepted.hash)
                (delegation_fact-names w parent child owner d accepted.hash))
            ∙ finish-refuses row t s later rows _ desk.queue
                (publish-strands parent child owner d accepted.hash again desk.queue reads differs),
        rw (delegation_row-append row desk.rows refl fresh) (
            finish-refuses row (key_of row.fact (text "task_id"))
              (key_of row.fact (text "assignment_subject")) later rows _ desk.queue
              (publish-strands parent child owner d accepted.hash again desk.queue reads differs)),
      )
