-- ===== src/Delegation/Again.antt =====
-- A delegation that is called twice.
use idol_id_agents.Prelude.{
  ℕ, Text, ◌≡◌, refl, ap, ◌∙◌, List, Option, none, some, Json, str, Result, ok, err, ok-injective,
}
use mathlib.Core.Path.{subst}
use idol_id_agents.Model.{WorkOrder, Coordination}
use idol_id_agents.Journal.{Row, Codec}
use idol_id_agents.Delegation.{Outside, CoordinationRefusal, fact_of}
use idol_id_agents.Delegation.Subjects.{assignment_subject}
use idol_id_agents.Delegation.Queue.{Slot, Queue, publish}
use idol_id_agents.Delegation.Delegate.{
  Desk, conclude, mark_queued, check_parent, accepted_row, delegation_fact, prior_row, record_once,
  intend, finish, delegate_accepted, delegate_found, delegate_checked, delegate,
}
use idol_id_agents.Delegation.Published.{
  IsPublished, publish-IsPublished, publish-IsPublished_again,
}
use idol_id_agents.Delegation.Resumed.{delegate-delegate_accepted}
use idol_id_agents.Delegation.Marked.{intend-prior, intend-accepted, mark_queued-IsMarked}

module _ (c : Codec) (w : Outside) where
  -- A call that succeeds has published and marked the delegation.
  conclude-ok :
      (r : Row) (rows : List Row) (queue : Queue) (m : Result CoordinationRefusal (List Row))
      {row : Row} {left : Desk}
      → conclude r rows queue m ≡ (ok row, left)
      → (r ≡ row) × (m ≡ ok left.rows) × (queue ≡ left.queue)
  conclude-ok r rows queue (err e) h = let refused = ap (λ x. x.0) h in cc
  conclude-ok r rows queue (ok marked) h =
      (ok-injective (ap (λ x. x.0) h), ap (λ x. ok x.1.rows) h, ap (λ x. x.1.queue) h)

  finish-ok :
      (r : Row) (t s : Option Json) (now : ℕ) (rows : List Row)
      (p : Result CoordinationRefusal Text × Queue) {row : Row} {left : Desk}
      → finish c r t s now rows p ≡ (ok row, left)
      → (target : Text) × (p.0 ≡ ok target)
        × (r ≡ row)
        × (mark_queued c r.hash t s target now rows ≡ ok left.rows)
        × (p.1 ≡ left.queue)
  unfolding finish
  finish-ok r t s now rows (err e, queue) h = let refused = ap (λ x. x.0) h in cc
  finish-ok r t s now rows (ok target, queue) h =
      let (same, marked, kept) =
        conclude-ok r rows queue (mark_queued c r.hash t s target now rows) h in
      (target, refl, same, marked, kept)

  -- A call on a journal that has its delegation, a directory that has its file, and its mark.
  delegate_accepted-done :
      (parent child : WorkOrder) (owner : Text) (d : Coordination) (ack : Text) (later : ℕ)
      (again : Slot) (left : Desk) {prior : Row} {target : Text}
      → prior_row w child ack left.rows ≡ some prior
      → publish w prior.fact again left.queue ≡ (ok target, left.queue)
      → ((t s : Option Json) → mark_queued c prior.hash t s target later left.rows ≡ ok left.rows)
      → delegate_accepted c w parent child owner d ack later again left ≡ (ok prior, left)
  unfolding delegate_accepted intend finish
  delegate_accepted-done parent child owner d ack later again left found published marked =
      rw (found, published, marked) refl

  delegate_accepted-again :
      (parent child : WorkOrder) (owner : Text) (d : Coordination) (accepted : Row) (now : ℕ)
      (race : Slot) (desk : Desk) {row : Row} {left : Desk}
      → accepted_row w parent owner desk.rows ≡ some accepted
      → delegate_accepted c w parent child owner d accepted.hash now race desk ≡ (ok row, left)
      → (accepted_row w parent owner left.rows ≡ some accepted)
        × ((later : ℕ) (again : Slot)
            → delegate_accepted c w parent child owner d accepted.hash later again left
              ≡ (ok row, left))
  unfolding delegate_accepted intend
  delegate_accepted-again parent child owner d accepted now race desk {row} {left} found h =
      let fact = delegation_fact w parent child owner d accepted.hash in
      let o = prior_row w child accepted.hash desk.rows in
      let i = record_once c fact now desk.rows o in
      let t = some (str child.task_id) in
      let s = some (str (assignment_subject w child)) in
      let (target, published, same, marked, kept) =
        finish-ok i.0 t s now i.1 (publish w i.0.fact race desk.queue) h in
      let m = mark_queued-IsMarked c w i.0.hash t s target now i.1 marked in
      let p =
        subst (IsPublished w (fact_of i.0.fact) target) kept
          (publish-IsPublished w i.0.fact race desk.queue published) in
      (
        m.accepts parent owner ∙ intend-accepted c w parent owner fact now desk.rows o ∙ found,
        λ later again.
            delegate_accepted-done parent child owner d accepted.hash later again left
              (m.delegates child accepted.hash
                ∙ intend-prior c w parent child owner d accepted.hash now desk.rows o refl)
              (publish-IsPublished_again w i.0.fact again left.queue p)
              (λ t' s'. m.settled t' s' target later)
            ∙ ap (λ r. (ok r, left)) same,
      )

  delegate_found-ok :
      (parent child : WorkOrder) (owner : Text) (d : Coordination) (now : ℕ) (race : Slot)
      (desk : Desk) (o : Option Row) {row : Row} {left : Desk}
      → delegate_found c w parent child owner d now race desk o ≡ (ok row, left)
      → (accepted : Row) × (o ≡ some accepted)
        × (delegate_accepted c w parent child owner d accepted.hash now race desk ≡ (ok row, left))
  delegate_found-ok parent child owner d now race desk none h = let refused = ap (λ x. x.0) h in cc
  delegate_found-ok parent child owner d now race desk (some accepted) h = (accepted, refl, h)

  delegate_checked-ok :
      (parent child : WorkOrder) (owner : Text) (now : ℕ) (race : Slot) (desk : Desk)
      (r : Result CoordinationRefusal Coordination) {row : Row} {left : Desk}
      → delegate_checked c w parent child owner now race desk r ≡ (ok row, left)
      → (d : Coordination) × (accepted : Row) × (r ≡ ok d)
        × (accepted_row w parent owner desk.rows ≡ some accepted)
        × (delegate_accepted c w parent child owner d accepted.hash now race desk ≡ (ok row, left))
  delegate_checked-ok parent child owner now race desk (err e) h =
      let refused = ap (λ x. x.0) h in cc
  delegate_checked-ok parent child owner now race desk (ok d) h =
      let (accepted, found, rest) =
        delegate_found-ok parent child owner d now race desk (accepted_row w parent owner desk.rows)
          h in
      (d, accepted, refl, found, rest)

  -- A delegation that succeeds is the same when it is called again, at any later time: it gives the
  -- same row, and leaves the journal and the directory as they are.
  pub delegate-delegate :
      (parent child : WorkOrder) (owner : Text) (now : ℕ) (race : Slot) (desk : Desk) (later : ℕ)
      (again : Slot) {row : Row} {left : Desk}
      → delegate c w parent child owner now race desk ≡ (ok row, left)
      → delegate c w parent child owner later again left ≡ (ok row, left)
  unfolding delegate
  delegate-delegate parent child owner now race desk later again {row} {left} h =
      let (d, accepted, checked, found, rest) =
        delegate_checked-ok parent child owner now race desk (check_parent w parent child owner)
          h in
      let (found_again, repeats) =
        delegate_accepted-again parent child owner d accepted now race desk found rest in
      delegate-delegate_accepted c w parent child owner later again left checked found_again
      ∙ repeats later again
