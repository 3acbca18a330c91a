-- ===== src/Delegation/Kept.antt =====
-- What `delegate` and `recover_delegation` leave as it is.
use idol_id_agents.Prelude.{
  ℕ, Text, text, ◌≡◌, ◌≢◌, refl, ap, ◌∙◌, List, [], ◌∷◌, ◌++◌, Option, none, some, Fields, Json,
  str, Result, ok, err, ok-injective,
}
use mathlib.Core.Path.{subst}
use idol_id_agents.Model.{WorkOrder, Coordination}
use idol_id_agents.Journal.{Row, Codec}
use idol_id_agents.Delegation.{Outside, CoordinationRefusal, last_row}
use idol_id_agents.Delegation.Subjects.{assignment_subject}
use idol_id_agents.Delegation.Queue.{Slot, missing, Queue, publish}
use idol_id_agents.Delegation.Delegate.{
  Desk, queued, conclude, add_queued, mark_missing, mark_queued, check_parent, accepted_row,
  delegation_fact, prior_row, record_once, intend, finish, delegate_accepted, delegate_found,
  delegate_checked, delegate, delegation_row, key_of, recover_row, recover,
}
use idol_id_agents.Delegation.Published.{publish-keeps}

-- The rows begin with the former ones.
abbrev Grows : List Row → List Row → Type 0
Grows rows left = (more : List Row) × (left ≡ rows ++ more)

append-none : (rows : List Row) → rows ≡ rows ++ []
append-none [] = refl
append-none (r ∷ rows) = ap (λ l. r ∷ l) (append-none rows)

append-append : (xs ys zs : List Row) → (xs ++ ys) ++ zs ≡ xs ++ (ys ++ zs)
append-append [] ys zs = refl
append-append (x ∷ xs) ys zs = ap (λ l. x ∷ l) (append-append xs ys zs)

Grows-refl : (rows : List Row) → Grows rows rows
Grows-refl rows = ([], append-none rows)

Grows-trans : (xs ys zs : List Row) → Grows xs ys → Grows ys zs → Grows xs zs
Grows-trans xs ys zs (more, e) (rest, f) =
    (more ++ rest, f ∙ ap (λ l. l ++ rest) e ∙ append-append xs more rest)

-- A desk whose journal begins with the former one and whose directory has the former files.
pub record IsKept (before after : Desk) : Type 0 where
  pub grows : Grows before.rows after.rows
  pub keeps : (n : Text) → before.queue n ≢ missing → after.queue n ≡ before.queue n

IsKept-refl : (desk : Desk) → IsKept desk desk
IsKept-refl desk = record { grows = Grows-refl desk.rows; keeps = λ n taken. refl }

module _ (c : Codec) where
  add_queued-Grows :
      (event : Text) (t s : Option Json) (target : Text) (now : ℕ) (rows : List Row)
      {marked : List Row}
      → add_queued c event t s target now rows ≡ ok marked
      → Grows rows marked
  unfolding add_queued
  add_queued-Grows event (some t) (some s) target now rows h =
      subst (Grows rows) (ok-injective h) (_, refl)
  add_queued-Grows event none s target now rows h = cc
  add_queued-Grows event (some t) none target now rows h = cc

  mark_missing-Grows :
      (event : Text) (t s : Option Json) (target : Text) (now : ℕ) (rows : List Row)
      (o : Option Row) {marked : List Row}
      → mark_missing c event t s target now rows o ≡ ok marked
      → Grows rows marked
  mark_missing-Grows event t s target now rows (some r) h =
      subst (Grows rows) (ok-injective h) (Grows-refl rows)
  mark_missing-Grows event t s target now rows none h = add_queued-Grows event t s target now rows h

  conclude-Grows :
      (row : Row) (rows : List Row) (queue : Queue) (m : Result CoordinationRefusal (List Row))
      → ((marked : List Row) → m ≡ ok marked → Grows rows marked)
      → Grows rows (conclude row rows queue m).1.rows
  conclude-Grows row rows queue (err e) grows = Grows-refl rows
  conclude-Grows row rows queue (ok marked) grows = grows marked refl

  conclude-queue :
      (row : Row) (rows : List Row) (queue : Queue) (m : Result CoordinationRefusal (List Row))
      → (conclude row rows queue m).1.queue ≡ queue
  conclude-queue row rows queue (err e) = refl
  conclude-queue row rows queue (ok marked) = refl

  finish-Grows :
      (row : Row) (t s : Option Json) (now : ℕ) (rows : List Row)
      (p : Result CoordinationRefusal Text × Queue)
      → Grows rows (finish c row t s now rows p).1.rows
  unfolding finish mark_queued
  finish-Grows row t s now rows (err e, queue) = Grows-refl rows
  finish-Grows row t s now rows (ok target, queue) =
      conclude-Grows row rows queue (mark_queued c row.hash t s target now rows) (λ marked.
        mark_missing-Grows row.hash t s target now rows
          (last_row queued ((text "delegation_event", row.hash) ∷ []) rows))

  finish-queue :
      (row : Row) (t s : Option Json) (now : ℕ) (rows : List Row)
      (p : Result CoordinationRefusal Text × Queue)
      → (finish c row t s now rows p).1.queue ≡ p.1
  unfolding finish
  finish-queue row t s now rows (err e, queue) = refl
  finish-queue row t s now rows (ok target, queue) =
      conclude-queue row rows queue (mark_queued c row.hash t s target now rows)

  record_once-Grows :
      (fact : Fields) (now : ℕ) (rows : List Row) (o : Option Row)
      → Grows rows (record_once c fact now rows o).1
  record_once-Grows fact now rows (some prior) = Grows-refl rows
  record_once-Grows fact now rows none = (_, refl)

module _ (c : Codec) (w : Outside) where
  -- The end of a call that publishes the fact of the row.
  finish-IsKept :
      (row : Row) (t s : Option Json) (now : ℕ) (race : Slot) (rows : List Row) (desk : Desk)
      → Grows desk.rows rows
      → IsKept desk (finish c row t s now rows (publish w row.fact race desk.queue)).1
  finish-IsKept row t s now race rows desk grows = record {
    grows =
        Grows-trans desk.rows rows _ grows
          (finish-Grows c row t s now rows (publish w row.fact race desk.queue));
    keeps = λ n taken.
        ap (λ q. q n) (finish-queue c row t s now rows (publish w row.fact race desk.queue))
        ∙ publish-keeps w row.fact race desk.queue n taken;
  }

  delegate_found-IsKept :
      (parent child : WorkOrder) (owner : Text) (d : Coordination) (now : ℕ) (race : Slot)
      (desk : Desk) (o : Option Row)
      → IsKept desk (delegate_found c w parent child owner d now race desk o).1
  unfolding delegate_accepted intend
  delegate_found-IsKept parent child owner d now race desk none = IsKept-refl desk
  delegate_found-IsKept parent child owner d now race desk (some accepted) =
      let fact = delegation_fact w parent child owner d accepted.hash in
      let o = prior_row w child accepted.hash desk.rows in
      let i = record_once c fact now desk.rows o in
      finish-IsKept i.0 (some (str child.task_id)) (some (str (assignment_subject w child))) now
        race i.1 desk (record_once-Grows c fact now desk.rows o)

  delegate_checked-IsKept :
      (parent child : WorkOrder) (owner : Text) (now : ℕ) (race : Slot) (desk : Desk)
      (r : Result CoordinationRefusal Coordination)
      → IsKept desk (delegate_checked c w parent child owner now race desk r).1
  delegate_checked-IsKept parent child owner now race desk (err e) = IsKept-refl desk
  delegate_checked-IsKept parent child owner now race desk (ok d) =
      delegate_found-IsKept parent child owner d now race desk
        (accepted_row w parent owner desk.rows)

  recover_row-IsKept :
      (now : ℕ) (race : Slot) (desk : Desk) (o : Option Row)
      → IsKept desk (recover_row c w now race desk o).1
  recover_row-IsKept now race desk none = IsKept-refl desk
  recover_row-IsKept now race desk (some row) =
      finish-IsKept row (key_of row.fact (text "task_id"))
        (key_of row.fact (text "assignment_subject")) now race desk.rows desk (Grows-refl desk.rows)

  -- `delegate` and `recover_delegation`, whether they succeed or refuse, leave the rows of the journal
  -- in their place and add rows behind them, and leave each file of the directory as it was.
  pub delegate-IsKept :
      (parent child : WorkOrder) (owner event : Text) (now : ℕ) (race : Slot) (desk : Desk)
      → IsKept desk (delegate c w parent child owner now race desk).1
        × IsKept desk (recover c w event now race desk).1
  unfolding delegate recover
  delegate-IsKept parent child owner event now race desk = (
    delegate_checked-IsKept parent child owner now race desk (check_parent w parent child owner),
    recover_row-IsKept now race desk (delegation_row event desk.rows),
  )
