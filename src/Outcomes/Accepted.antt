-- ===== src/Outcomes/Accepted.antt =====
-- What a recorded outcome says of the journal behind which it was recorded.
use idol_id_agents.Prelude.{
  str, ℕ, Text, text, false, ◌≡◌, ◌≢◌, List, All, Any, Option, some, Json, Fields, get, ok, none,
  some-injective, ◌⊎◌, inl, inr, [], ◌∷◌, sym, refl,
}
use idol_id_agents.Journal.{Row, Codec, File, Journal, read_locked}
use idol_id_agents.Journal.Append.{IsCoherent, snapshot-reads}
use idol_id_agents.Outcomes.Receipts.{OutcomeReceipt, validate_receipt}
use idol_id_agents.Outcomes.{if_filled, implementer, nothing_seen, see_events, record_outcome}
use idol_id_agents.Outcomes.Latest.{
  is_on, closes, IsLast, IsExecuted, started-IsLast, ready-IsLast, executed-IsExecuted,
}
use idol_id_agents.Outcomes.Closed.{see_events-open}
use idol_id_agents.Outcomes.Checks.{IsExplained, check_outcome-IsPassed}
use idol_id_agents.Outcomes.Once.{record_outcome-IsDone}

if_filled-filled :
    (found : Option Text) {t : Text} → found ≡ some t → t ≢ [] → if_filled found ≡ some t
if_filled-filled none h filled = cc
if_filled-filled (some []) h filled = absurd (filled (sym (some-injective h)))
if_filled-filled (some (x ∷ rest)) h filled = h

-- The family that is known to have implemented the attempt: the one of the execution, or else the
-- configured one.
abbrev pub IsImplementer : Option Text → Option Text → Text → Type 0
IsImplementer executed configured family =
    (executed ≡ some family) ⊎ ((executed ≡ none) × (configured ≡ some family) × (family ≢ []))

implementer-IsImplementer :
    (executed configured : Option Text) {family : Text}
    → IsImplementer executed configured family
    → implementer executed (if_filled configured) ≡ some family
implementer-IsImplementer executed configured (inl e) = rw e refl
implementer-IsImplementer executed configured (inr (e, k, filled)) =
    rw e (if_filled-filled configured k filled)

module _ (str_of : Json → Text) (candidate : Option Json → Text → Option Text)
    (families : Text → Option Text) where
  -- An outcome that the rows of a journal admit.
  pub record IsAccepted (rows : List Row) (r : OutcomeReceipt) : Type 0 where
    pub valid : validate_receipt r ≡ ok tt
    pub undecided : All (λ row. closes r.attempt_id row ≡ false) rows
    pub attempt : Fields
    pub was_started : IsLast (is_on r.attempt_id (text "attempt.started")) rows attempt
    pub order : get attempt (text "order_id") ≡ some (str r.order_id)
    pub task : get attempt (text "task_id") ≡ some (str r.task_id)
    pub route : get attempt (text "route_id") ≡ some (str r.route_id)
    pub ready : Fields
    pub is_ready : IsLast (is_on r.attempt_id (text "attempt.ready")) rows ready
    pub commit :
        (accepted : Text)
        → r.verdict ≡ text "admitted"
        → r.accepted_commit ≡ some accepted
        → get ready (text "commit") ≡ some (str accepted)
    pub executed : Option Fields
    pub executor : Option Text
    pub was_executed : IsExecuted str_of r.attempt_id rows executed executor
    pub explained : IsExplained str_of candidate families attempt ready executed r
    pub agree :
        (family configured : Text)
        → executor ≡ some family
        → families r.route_id ≡ some configured
        → configured ≢ []
        → family ≡ configured
    pub independent :
        (family : Text)
        → IsImplementer executor (families r.route_id) family
        → r.verdict ≡ text "admitted"
        → Any (λ reviewer. reviewer ≢ family) r.reviewer_families

  -- An outcome that is recorded in a readable journal with a coherent cache is valid, and the rows
  -- admit it: no row is a verdict on the attempt; the last start of the attempt names the order, the
  -- task and the route of the outcome; the last ready row of the attempt names the commit that an
  -- admitted outcome accepts; the evidence of an outcome without a change is bound to the base and to
  -- the output of the last execution, and any other outcome names no such evidence; and the family of
  -- the last execution is the configured one where both are known, and an admitted outcome has a
  -- reviewer of another family than the known one.
  pub record_outcome-IsAccepted :
      (c : Codec) (stamp : ℕ) (r : OutcomeReceipt) (f : File) (j : Journal) (rows : List Row)
      (row : Row)
      → IsCoherent c f j
      → read_locked c f.lines ≡ ok rows
      → (record_outcome str_of candidate families c stamp r f j).0 ≡ ok row
      → IsAccepted rows r
  record_outcome-IsAccepted c stamp r f j rows row coherent readable h =
      let (known, kept) = snapshot-reads c f j rows coherent readable in
      let done = record_outcome-IsDone str_of candidate families c stamp r f j rows known h in
      let seen = see_events str_of r.attempt_id rows nothing_seen in
      let passed = check_outcome-IsPassed str_of candidate families seen r done.passed in
      record {
        valid = done.valid;
        undecided = see_events-open str_of r.attempt_id rows nothing_seen passed.open_attempt;
        attempt = passed.attempt;
        was_started = started-IsLast str_of r.attempt_id rows passed.was_started;
        order = passed.order;
        task = passed.task;
        route = passed.route;
        ready = passed.ready;
        is_ready = ready-IsLast str_of r.attempt_id rows passed.is_ready;
        commit = passed.commit;
        executed = seen.executed;
        executor = seen.family;
        was_executed = executed-IsExecuted str_of r.attempt_id rows;
        explained = passed.explained;
        agree = λ family configured e k filled.
            passed.agree family configured e (if_filled-filled (families r.route_id) k filled);
        independent = λ family e.
            passed.independent family
              (implementer-IsImplementer seen.family (families r.route_id) e);
      }
