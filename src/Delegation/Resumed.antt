-- ===== src/Delegation/Resumed.antt =====
-- A delegation that was interrupted behind its record in the journal.
use idol_id_agents.Prelude.{ℕ, Text, ◌≡◌, refl, none, some, str, obj, get, ◌==◌, ok}
use idol_id_agents.Model.{WorkOrder, Coordination}
use idol_id_agents.Journal.{Row, Codec, next_row}
use idol_id_agents.Delegation.{Outside, add_row}
use idol_id_agents.Delegation.Subjects.{assignment_subject}
use idol_id_agents.Delegation.Queue.{Slot, publish}
use idol_id_agents.Delegation.Delegate.{
  Desk, delegated, check_parent, accepted_row, delegation_fact, prior_row, intend, finish,
  delegate_accepted, delegate, delegation_row, key_of, recover,
}
use idol_id_agents.Delegation.Rows.{delegation_row-append}

module _ (c : Codec) (w : Outside) where
  pub delegate-delegate_accepted :
      (parent child : WorkOrder) (owner : Text) (now : ℕ) (race : Slot) (desk : Desk)
      {d : Coordination} {accepted : Row}
      → check_parent w parent child owner ≡ ok d
      → accepted_row w parent owner desk.rows ≡ some accepted
      → delegate c w parent child owner now race desk
        ≡ delegate_accepted c w parent child owner d accepted.hash now race desk
  unfolding delegate
  delegate-delegate_accepted parent child owner now race desk checked found =
      rw (checked, found) refl

  -- The record of a delegation that the journal does not have yet.
  abbrev pub new_delegation : WorkOrder → WorkOrder → Text → Coordination → Row → ℕ → Desk → Row
  new_delegation parent child owner d accepted now desk =
      next_row c desk.rows delegated (delegation_fact w parent child owner d accepted.hash) now

  -- The desk of a call that stops behind this record.
  abbrev pub interrupted : WorkOrder → WorkOrder → Text → Coordination → Row → ℕ → Desk → Desk
  interrupted parent child owner d accepted now desk = record desk {
    rows = add_row c delegated (delegation_fact w parent child owner d accepted.hash) now desk.rows;
  }

  pub delegate-new :
      (parent child : WorkOrder) (owner : Text) (now : ℕ) (race : Slot) (desk : Desk)
      {d : Coordination} {accepted : Row}
      → check_parent w parent child owner ≡ ok d
      → accepted_row w parent owner desk.rows ≡ some accepted
      → prior_row w child accepted.hash desk.rows ≡ none
      → delegate c w parent child owner now race desk
        ≡ finish c
            (new_delegation parent child owner d accepted now desk)
            (some (str child.task_id))
            (some (str (assignment_subject w child)))
            now
            (interrupted parent child owner d accepted now desk).rows
            (publish w (obj (delegation_fact w parent child owner d accepted.hash)) race desk.queue)
  unfolding delegate delegate_accepted intend
  delegate-new parent child owner now race desk checked found new = rw (checked, found, new) refl

  -- A delegation that the journal does not have, and that stops behind its record in the journal, is
  -- completed by `recover_delegation` with the hash of the record, provided no other delegation has
  -- it: at the same time and with the same files, it gives the row and leaves the journal and the
  -- directory that the call would have given and left, refusals included.
  pub recover-resumes :
      (parent child : WorkOrder) (owner : Text) (now : ℕ) (race : Slot) (desk : Desk)
      {d : Coordination} {accepted : Row}
      → check_parent w parent child owner ≡ ok d
      → accepted_row w parent owner desk.rows ≡ some accepted
      → prior_row w child accepted.hash desk.rows ≡ none
      → delegation_row (new_delegation parent child owner d accepted now desk).hash desk.rows ≡ none
      → recover c w
          (new_delegation parent child owner d accepted now desk).hash
          now
          race
          (interrupted parent child owner d accepted now desk)
        ≡ delegate c w parent child owner now race desk
  unfolding recover key_of delegation_fact get ◌==◌
  recover-resumes parent child owner now race desk {d} {accepted} checked found new fresh =
      rw
        (
          delegation_row-append (new_delegation parent child owner d accepted now desk) desk.rows
              refl fresh,
          delegate-new parent child owner now race desk checked found new,
        )
        refl
