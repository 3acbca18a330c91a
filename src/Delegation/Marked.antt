-- ===== src/Delegation/Marked.antt =====
-- The journal behind a delegation and behind its mark.
use idol_id_agents.Prelude.{
  ℕ, Text, text, true, false, ◌≡◌, refl, ap, ◌∙◌, List, [], ◌∷◌, Option, none, some, Fields, Json,
  get, ◌==◌, eq_refl, ok, ok-injective,
}
use mathlib.Core.Path.{subst}
use idol_id_agents.Model.{WorkOrder, Coordination}
use idol_id_agents.Journal.{Row, Codec, next_row}
use idol_id_agents.Delegation.{Outside, add_row, last_row, carries}
use idol_id_agents.Delegation.Subjects.{assignment_subject}
use idol_id_agents.Delegation.Acknowledge.{acked}
use idol_id_agents.Delegation.Delegate.{
  delegated, queued, names_ack, queued_fact, add_queued, mark_missing, mark_queued, accepted_row,
  delegation_fact, under_ack, prior_row, record_once,
}
use idol_id_agents.Delegation.Rows.{last_row-add_other, last_row-add_wanted}

module _ (w : Outside) where
  pub delegation_fact-carries :
      (parent child : WorkOrder) (owner : Text) (d : Coordination) (ack : Text)
      → carries
          ((text "assignment_subject", assignment_subject w child) ∷ [])
          (some (delegation_fact w parent child owner d ack))
        ≡ true
  unfolding delegation_fact get ◌==◌
  delegation_fact-carries parent child owner d ack = rw (eq_refl (assignment_subject w child)) refl

  pub delegation_fact-names :
      (parent child : WorkOrder) (owner : Text) (d : Coordination) (ack : Text)
      → names_ack ack (some (delegation_fact w parent child owner d ack)) ≡ true
  unfolding delegation_fact get ◌==◌
  delegation_fact-names parent child owner d ack = eq_refl ack

module _ (c : Codec) (w : Outside) where
  pub accepted_row-add_other :
      (parent : WorkOrder) (owner kind : Text) (fact : Fields) (now : ℕ) (rows : List Row)
      → (kind == acked) ≡ false
      → accepted_row w parent owner (add_row c kind fact now rows)
        ≡ accepted_row w parent owner rows
  unfolding accepted_row
  accepted_row-add_other parent owner kind fact now rows =
      last_row-add_other c acked
        ((text "assignment_subject", assignment_subject w parent) ∷ (text "recipient", owner) ∷ [])
        kind fact now rows

  pub prior_row-add_queued :
      (child : WorkOrder) (ack : Text) (fact : Fields) (now : ℕ) (rows : List Row)
      → prior_row w child ack (add_row c queued fact now rows) ≡ prior_row w child ack rows
  unfolding prior_row ◌==◌
  prior_row-add_queued child ack fact now rows = ap (under_ack ack) (
      last_row-add_other c delegated ((text "assignment_subject", assignment_subject w child) ∷ [])
        queued fact now rows refl)

  pub prior_row-add_delegated :
      (child : WorkOrder) (ack : Text) (fact : Fields) (now : ℕ) (rows : List Row)
      → carries ((text "assignment_subject", assignment_subject w child) ∷ []) (some fact) ≡ true
      → names_ack ack (some fact) ≡ true
      → prior_row w child ack (add_row c delegated fact now rows)
        ≡ some (next_row c rows delegated fact now)
  unfolding prior_row
  prior_row-add_delegated child ack fact now rows carried named =
      ap (under_ack ack) (
        last_row-add_wanted c delegated
          ((text "assignment_subject", assignment_subject w child) ∷ []) fact now rows carried)
      ∙ rw named refl

  -- A journal behind `intend` has the delegation, and accepts what it has accepted.
  pub intend-prior :
      (parent child : WorkOrder) (owner : Text) (d : Coordination) (ack : Text) (now : ℕ)
      (rows : List Row) (o : Option Row)
      → prior_row w child ack rows ≡ o
      → prior_row w child ack
          (record_once c (delegation_fact w parent child owner d ack) now rows o).1
        ≡ some (record_once c (delegation_fact w parent child owner d ack) now rows o).0
  intend-prior parent child owner d ack now rows (some p) h = h
  intend-prior parent child owner d ack now rows none h =
      prior_row-add_delegated child ack (delegation_fact w parent child owner d ack) now rows
        (delegation_fact-carries w parent child owner d ack)
        (delegation_fact-names w parent child owner d ack)

  pub intend-accepted :
      (parent : WorkOrder) (owner : Text) (fact : Fields) (now : ℕ) (rows : List Row)
      (o : Option Row)
      → accepted_row w parent owner (record_once c fact now rows o).1
        ≡ accepted_row w parent owner rows
  unfolding ◌==◌
  intend-accepted parent owner fact now rows (some p) = refl
  intend-accepted parent owner fact now rows none =
      accepted_row-add_other parent owner delegated fact now rows refl

  -- What marking a delegation leaves: nothing new if it is marked, and else a row that marks it.
  pub record IsMarked (event : Text) (rows marked : List Row) : Type 0 where
    pub accepts :
        (parent : WorkOrder) (owner : Text)
        → accepted_row w parent owner marked ≡ accepted_row w parent owner rows
    pub delegates :
        (child : WorkOrder) (ack : Text) → prior_row w child ack marked ≡ prior_row w child ack rows
    pub settled :
        (t s : Option Json) (target : Text) (now : ℕ)
        → mark_queued c event t s target now marked ≡ ok marked

  mark_queued-passes :
      (event : Text) (t s : Option Json) (target : Text) (now : ℕ) (marked : List Row) {r : Row}
      → last_row queued ((text "delegation_event", event) ∷ []) marked ≡ some r
      → mark_queued c event t s target now marked ≡ ok marked
  unfolding mark_queued
  mark_queued-passes event t s target now marked h = rw h refl

  add_queued-IsMarked :
      (event : Text) (t s : Option Json) (target : Text) (now : ℕ) (rows : List Row)
      {marked : List Row}
      → add_queued c event t s target now rows ≡ ok marked
      → IsMarked event rows marked
  unfolding add_queued queued_fact get ◌==◌
  add_queued-IsMarked event (some t) (some s) target now rows h =
      let fact = queued_fact event t s target in
      subst (IsMarked event rows) (ok-injective h) (record {
        accepts = λ parent owner. accepted_row-add_other parent owner queued fact now rows refl;
        delegates = λ child ack. prior_row-add_queued child ack fact now rows;
        settled = λ t' s' target' later. mark_queued-passes event t' s' target' later _ (
            last_row-add_wanted c queued ((text "delegation_event", event) ∷ []) fact now rows
              (rw (eq_refl event) refl));
      })
  add_queued-IsMarked event none s target now rows h = cc
  add_queued-IsMarked event (some t) none target now rows h = cc

  mark_missing-IsMarked :
      (event : Text) (t s : Option Json) (target : Text) (now : ℕ) (rows : List Row)
      (o : Option Row) {marked : List Row}
      → last_row queued ((text "delegation_event", event) ∷ []) rows ≡ o
      → mark_missing c event t s target now rows o ≡ ok marked
      → IsMarked event rows marked
  mark_missing-IsMarked event t s target now rows (some r) found h =
      subst (IsMarked event rows) (ok-injective h) (record {
        accepts = λ parent owner. refl;
        delegates = λ child ack. refl;
        settled = λ t' s' target' later. mark_queued-passes event t' s' target' later rows found;
      })
  mark_missing-IsMarked event t s target now rows none found h =
      add_queued-IsMarked event t s target now rows h

  pub mark_queued-IsMarked :
      (event : Text) (t s : Option Json) (target : Text) (now : ℕ) (rows : List Row)
      {marked : List Row}
      → mark_queued c event t s target now rows ≡ ok marked
      → IsMarked event rows marked
  unfolding mark_queued
  mark_queued-IsMarked event t s target now rows h =
      mark_missing-IsMarked event t s target now rows
        (last_row queued ((text "delegation_event", event) ∷ []) rows) refl h
