-- ===== src/Delegation/Accepted.antt =====
-- An acknowledgement is found by those who look for it.
use idol_id_agents.Prelude.{
  ℕ, ◌*◌, Text, text, true, false, ◌≡◌, refl, sym, ap, ◌∙◌, ◌&&◌, List, [], ◌∷◌, not, leb, length,
  is_empty, some, get, ◌==◌, eq_refl, ok, ok-injective, >>=-ok, >>-ok, refuse_if-ok, not-false,
}
use idol_id_agents.Model.{WorkOrder, Coordination, Route, second}
use idol_id_agents.Journal.{Row, Codec, next_row}
use idol_id_agents.Delegation.{
  Outside, ttl_bounds, recipient_required, require_exact_subject, declaration, add_row, carries,
  latest_assignment_ack,
}
use idol_id_agents.Delegation.Subjects.{assignment_subject, dependency_subject}
use idol_id_agents.Delegation.Acknowledge.{acked, ack_fact, acknowledge}
use idol_id_agents.Delegation.Delegate.{accepted_row}
use idol_id_agents.Delegation.Rows.{last_row-add_wanted}

module _ (c : Codec) (w : Outside) where
  ack_fact-carries :
      (o : WorkOrder) (route : Route) (recipient : Text) (ttl now : ℕ) (d : Coordination)
      (dependency : Text)
      → carries
          ((text "assignment_subject", assignment_subject w o) ∷ (text "recipient", recipient) ∷ [])
          (some (ack_fact w o route recipient ttl now d dependency))
        ≡ true
  unfolding ack_fact get ◌==◌
  ack_fact-carries o route recipient ttl now d dependency =
      rw (eq_refl (assignment_subject w o), eq_refl recipient) refl

  ack_fact-task :
      (o : WorkOrder) (route : Route) (recipient : Text) (ttl now : ℕ) (d : Coordination)
      (dependency : Text)
      → carries
          ((text "task_id", o.task_id) ∷ [])
          (some (ack_fact w o route recipient ttl now d dependency))
        ≡ true
  unfolding ack_fact get ◌==◌
  ack_fact-task o route recipient ttl now d dependency = rw (eq_refl o.task_id) refl

  acknowledge-ok :
      (o : WorkOrder) (route : Route) (recipient : Text) (ttl now : ℕ) (rows : List Row) {row : Row}
      {left : List Row}
      → acknowledge c w o route recipient ttl now rows ≡ ok (row, left)
      → (d : Coordination) × (dependency : Text) × ((leb 30 ttl && leb ttl 86400) ≡ true)
        × (next_row c rows acked (ack_fact w o route recipient ttl now d dependency) (now * second)
            ≡ row)
        × (add_row c acked (ack_fact w o route recipient ttl now d dependency) (now * second) rows
            ≡ left)
  unfolding acknowledge
  acknowledge-ok o route recipient ttl now rows h =
      let (d, e₁, h₁) = >>=-ok (declaration o) _ h in
      let (bounds, h₂) = refuse_if-ok (not (leb 30 ttl && leb ttl 86400)) ttl_bounds _ h₁ in
      let (named, h₃) =
        refuse_if-ok (not (not (is_empty recipient) && leb (length recipient) 240))
          recipient_required _ h₂ in
      let (exact, h₄) = >>-ok (require_exact_subject w o) _ h₃ in
      let (dependency, e₅, h₅) = >>=-ok (dependency_subject w o rows false) _ h₄ in
      (
        d,
        dependency,
        not-false (leb 30 ttl && leb ttl 86400) bounds,
        ap (λ p. p.0) (ok-injective h₅),
        ap (λ p. p.1) (ok-injective h₅),
      )

  -- An acknowledgement that succeeds has a lease within its bounds, and its row is what `delegate`
  -- finds as the acceptance of the order by the recipient, and the latest acknowledgement of the
  -- task.
  pub acknowledge-accepts :
      (o : WorkOrder) (route : Route) (recipient : Text) (ttl now : ℕ) (rows : List Row) {row : Row}
      {left : List Row}
      → acknowledge c w o route recipient ttl now rows ≡ ok (row, left)
      → (accepted_row w o recipient left ≡ some row)
        × (latest_assignment_ack left o.task_id ≡ some row)
        × ((leb 30 ttl && leb ttl 86400) ≡ true)
  unfolding accepted_row
  acknowledge-accepts o route recipient ttl now rows h =
      let (d, dependency, bounds, same, grown) = acknowledge-ok o route recipient ttl now rows h in
      let fact = ack_fact w o route recipient ttl now d dependency in
      let by_recipient =
        last_row-add_wanted c acked
          ((text "assignment_subject", assignment_subject w o) ∷ (text "recipient", recipient) ∷ [])
          fact (now * second) rows (ack_fact-carries o route recipient ttl now d dependency) in
      let by_task =
        last_row-add_wanted c acked ((text "task_id", o.task_id) ∷ []) fact (now * second) rows
          (ack_fact-task o route recipient ttl now d dependency) in
      (
        ap (accepted_row w o recipient) (sym grown) ∙ by_recipient ∙ ap some same,
        ap (λ l. latest_assignment_ack l o.task_id) (sym grown) ∙ by_task ∙ ap some same,
        bounds,
      )
