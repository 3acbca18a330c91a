-- ===== src/Delegation/Arrived.antt =====
-- A delegation of an order that was loaded reaches the directory.
use idol_id_agents.Prelude.{
  ℕ, Text, text, true, ◌≡◌, ◌≢◌, refl, ap, ◌∙◌, List, [], ◌∷◌, Option, none, some, Fields, Json,
  str, obj, get, ◌==◌, eq_refl, ok,
}
use idol_id_agents.Model.{WorkOrder, Coordination}
use idol_id_agents.Model.Decode.Loaded.{order_of}
use idol_id_agents.Model.Encode.{order_mapping}
use idol_id_agents.Model.Reread.{order_of-order_mapping}
use idol_id_agents.Journal.{Row, Codec}
use idol_id_agents.Delegation.{Outside, last_row}
use idol_id_agents.Delegation.Subjects.{assignment_subject}
use idol_id_agents.Delegation.Queue.{
  missing, regular, Queue, put_slot, queue_path, queue_content, place, link, decoded, names_hash,
  publish_order, publish_decoded, publish,
}
use idol_id_agents.Delegation.Delegate.{
  Desk, queued, check_parent, accepted_row, delegation_fact, prior_row, add_queued, mark_missing,
  mark_queued, finish, delegate,
}
use idol_id_agents.Delegation.Published.{put_slot-same}
use idol_id_agents.Delegation.Resumed.{new_delegation, interrupted, delegate-new}

module _ (w : Outside) where
  -- The journaled order is decoded from the mapping of the child.
  pub decoded-delegation_fact :
      (parent child : WorkOrder) (owner : Text) (d : Coordination) (ack : Text) {o : WorkOrder}
      → order_of w.readers (order_mapping child) ≡ ok o
      → decoded w (some (delegation_fact w parent child owner d ack)) ≡ ok o
  unfolding decoded delegation_fact get ◌==◌
  decoded-delegation_fact parent child owner d ack h = rw h refl

  pub names_hash-delegation_fact :
      (parent child : WorkOrder) (owner : Text) (d : Coordination) (ack hash : Text)
      → names_hash (some (delegation_fact w parent child owner d ack)) hash
        ≡ (w.sha256 (queue_content w child) == hash)
  unfolding delegation_fact get ◌==◌
  names_hash-delegation_fact parent child owner d ack hash = refl

  publish_order-missing :
      (fact : Option Fields) (o : WorkOrder) (queue : Queue)
      → names_hash fact (w.sha256 (queue_content w o)) ≡ true
      → queue (queue_path w o) ≡ missing
      → publish_order w fact missing o queue
        ≡ (ok (queue_path w o), put_slot (queue_path w o) (regular (queue_content w o)) queue)
  unfolding publish_order place link
  publish_order-missing fact o queue named free = rw (named, free) refl

  publish-delegation_fact :
      (parent child : WorkOrder) (owner : Text) (d : Coordination) (ack : Text) (queue : Queue)
      → order_of w.readers (order_mapping child) ≡ ok child
      → queue (queue_path w child) ≡ missing
      → publish w (obj (delegation_fact w parent child owner d ack)) missing queue ≡ (
        ok (queue_path w child),
        put_slot (queue_path w child) (regular (queue_content w child)) queue,
      )
  unfolding publish publish_decoded
  publish-delegation_fact parent child owner d ack queue h free =
      rw (decoded-delegation_fact parent child owner d ack h) (
        publish_order-missing (some (delegation_fact w parent child owner d ack)) child queue
          (names_hash-delegation_fact parent child owner d ack (w.sha256 (queue_content w child))
            ∙ eq_refl (w.sha256 (queue_content w child)))
          free)

module _ (c : Codec) (w : Outside) where
  mark_missing-ok :
      (event : Text) (t s : Json) (target : Text) (now : ℕ) (rows : List Row) (o : Option Row)
      → (marked : List Row) × (mark_missing c event (some t) (some s) target now rows o ≡ ok marked)
  unfolding add_queued
  mark_missing-ok event t s target now rows none = (_, refl)
  mark_missing-ok event t s target now rows (some r) = (rows, refl)

  finish-passes :
      (row : Row) (t s : Json) (now : ℕ) (rows : List Row) (target : Text) (queue : Queue)
      → ((finish c row (some t) (some s) now rows (ok target, queue)).0 ≡ ok row)
        × ((finish c row (some t) (some s) now rows (ok target, queue)).1.queue ≡ queue)
  unfolding finish mark_queued
  finish-passes row t s now rows target queue =
      let (marked, e) =
        mark_missing-ok row.hash t s target now rows
          (last_row queued ((text "delegation_event", row.hash) ∷ []) rows) in
      rw e (refl, refl)

  -- A child that was loaded from a mapping, with no blank reviewer family and no blank issue, whose
  -- parent passes the tests and is accepted in the journal, and that the journal does not have and
  -- no file blocks, is delegated: the call gives the row of its delegation, and its file holds the
  -- bytes of its mapping, which loads as the child again. Resolving a path twice is resolving it once.
  pub delegate-arrives :
      (parent child : WorkOrder) (owner : Text) (now : ℕ) (desk : Desk) (raw : Fields)
      {d : Coordination} {accepted : Row}
      → ((s : Text) → w.readers.path_of (w.readers.path_of s) ≡ w.readers.path_of s)
      → order_of w.readers raw ≡ ok child
      → child.reviewer_family ≢ some []
      → child.issue ≢ some []
      → check_parent w parent child owner ≡ ok d
      → accepted_row w parent owner desk.rows ≡ some accepted
      → prior_row w child accepted.hash desk.rows ≡ none
      → desk.queue (queue_path w child) ≡ missing
      → ((delegate c w parent child owner now missing desk).0
          ≡ ok (new_delegation c w parent child owner d accepted now desk))
        × ((delegate c w parent child owner now missing desk).1.queue (queue_path w child)
            ≡ regular (queue_content w child))
        × (order_of w.readers (order_mapping child) ≡ ok child)
  delegate-arrives parent child owner now desk raw {d} {accepted} resolves loads reviewed filed
        checked found new free =
      let reads = order_of-order_mapping w.readers raw resolves loads reviewed filed in
      let row = new_delegation c w parent child owner d accepted now desk in
      let eq = delegate-new c w parent child owner now missing desk checked found new in
      let published =
        publish-delegation_fact w parent child owner d accepted.hash desk.queue reads free in
      let (given, kept) =
        finish-passes row (str child.task_id) (str (assignment_subject w child)) now
          (interrupted c w parent child owner d accepted now desk).rows (queue_path w child)
          (put_slot (queue_path w child) (regular (queue_content w child)) desk.queue) in
      (
        ap (λ x. x.0) eq ∙ rw published given,
        ap (λ x. x.1.queue (queue_path w child)) eq
            ∙ rw published (
                ap (λ q. q (queue_path w child)) kept
                ∙ put_slot-same (queue_path w child) (regular (queue_content w child)) desk.queue),
        reads,
      )
