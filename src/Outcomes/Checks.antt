-- ===== src/Outcomes/Checks.antt =====
-- What the tests of `record_outcome` guarantee of what the loop over the journal has seen.
use idol_id_agents.Prelude.{
  Text, text, Bool, true, false, ◌≡◌, ◌≢◌, refl, Option, none, some, Json, Fields, bool, str, arr,
  nil, get, ok, >>=-ok, >>-ok, refuse_if-ok, or_false, Any, ◌⊎◌, inl, inr, if◌then◌else◌,
}
use idol_id_agents.Model.Atoms.{is_sha}
use idol_id_agents.Outcomes.Receipts.{
  OutcomeReceipt, is_admitted, unknown_attempt, not_ready, base_mismatch, candidate_invalid,
}
use idol_id_agents.Outcomes.{
  Seen, require, is_some, exact_base, if_filled, implementer, says_no_change, check_source_change,
  check_no_change, check_outcome,
}
use idol_id_agents.Outcomes.Guards.{
  is_text-some, has_text-some, is_value-some, admitted_lem, not_admitted, require-ok, not_some,
  not-not, unless, never, rest_of, passes, same_text-some, is_true-some, is_no_items-some,
  exact_base-some, families_differ-same, only_reviewer-other,
}

module _ (str_of : Json → Text) (candidate : Option Json → Text → Option Text)
    (families : Text → Option Text) where
  -- An outcome without a change: the ready fact and the start name one exact base, which an admitted
  -- outcome accepts and no other names, and the evidence that is valid for the attempt is the one of
  -- the receipt and the output of the execution.
  pub record IsUnchanged (attempt ready : Fields) (executed : Option Fields) (r : OutcomeReceipt)
      : Type 0 where
    pub marked : get ready (text "no_change") ≡ some (bool true)
    pub base : Text
    pub based : get attempt (text "base_sha") ≡ some (str base)
    pub exact : is_sha base ≡ true
    pub ready_base : get ready (text "base_sha") ≡ some (str base)
    pub ready_commit : get ready (text "commit") ≡ some (str base)
    pub accepted : r.verdict ≡ text "admitted" → r.accepted_commit ≡ some base
    pub unclaimed : r.verdict ≢ text "admitted" → r.accepted_commit ≡ none
    pub no_paths : get ready (text "paths") ≡ some (arr nil)
    pub hash : Text
    pub evidence : candidate (get ready (text "candidate_evidence")) r.attempt_id ≡ some hash
    pub bound : r.candidate_evidence_sha256 ≡ some hash
    pub execution : Fields
    pub was_executed : executed ≡ some execution
    pub output : get execution (text "stdout_hash") ≡ some (str hash)

  check_no_change-IsUnchanged :
      (attempt ready : Fields) (seen : Seen) (r : OutcomeReceipt)
      → check_no_change str_of candidate families attempt ready seen r ≡ ok tt
      → IsUnchanged attempt ready seen.executed r
  unfolding check_no_change
  check_no_change-IsUnchanged attempt ready seen r h =
      let (marked, h₁) = refuse_if-ok _ _ _ h in
      let (base, based, h₂) =
        >>=-ok (require (exact_base ready (get attempt (text "base_sha"))) base_mismatch) _ h₁ in
      let (accepted, h₃) = refuse_if-ok _ _ _ h₂ in
      let (unclaimed, h₄) = refuse_if-ok _ _ _ h₃ in
      let (no_paths, h₅) = refuse_if-ok _ _ _ h₄ in
      let (named, h₆) = refuse_if-ok _ _ _ h₅ in
      let (hash, evidence, h₇) =
        >>=-ok
          (require (candidate (get ready (text "candidate_evidence")) r.attempt_id)
            candidate_invalid)
          _ h₆ in
      let (bound, h₈) = refuse_if-ok _ _ _ h₇ in
      let (output, h₉) = refuse_if-ok _ _ _ h₈ in
      let execution = has_text-some seen.executed (text "stdout_hash") hash (not-not _ output) in
      let (is_base, exact, of_base, of_commit) =
        exact_base-some ready (get attempt (text "base_sha")) (require-ok _ base_mismatch based) in
      record {
        marked = is_true-some _ (not-not _ marked);
        base = base;
        based = is_base;
        exact = exact;
        ready_base = is_text-some _ base of_base;
        ready_commit = is_text-some _ base of_commit;
        accepted = λ e. same_text-some _ base (unless _ _ accepted (admitted_lem r e));
        unclaimed = λ e. not_some _ (rest_of (is_admitted r) _ unclaimed (not_admitted r e));
        no_paths = is_no_items-some _ (not-not _ no_paths);
        hash = hash;
        evidence = require-ok _ candidate_invalid evidence;
        bound = same_text-some _ hash (not-not _ bound);
        execution = execution.0;
        was_executed = execution.1;
        output = execution.2;
      }

  check_source_change-ok :
      (ready : Fields) (r : OutcomeReceipt)
      → check_source_change ready r ≡ ok tt
      → (get ready (text "candidate_evidence") ≡ none) × (r.candidate_evidence_sha256 ≡ none)
  unfolding check_source_change
  check_source_change-ok ready r h =
      let quiet = passes _ _ h in
      let (found, named) =
        or_false (is_some (get ready (text "candidate_evidence")))
          (is_some r.candidate_evidence_sha256) quiet in
      (not_some _ found, not_some _ named)

  -- What holds of the change of an outcome.
  abbrev pub IsExplained : Fields → Fields → Option Fields → OutcomeReceipt → Type 0
  IsExplained attempt ready executed r =
      IsUnchanged attempt ready executed r
      ⊎ ((get ready (text "no_change") ≡ none)
          × (get ready (text "candidate_evidence") ≡ none)
          × (r.candidate_evidence_sha256 ≡ none))

  change-IsExplained :
      (attempt ready : Fields) (seen : Seen) (r : OutcomeReceipt) (no_change : Bool)
      → says_no_change ready ≡ no_change
      → (if no_change
          then check_no_change str_of candidate families attempt ready seen r
          else check_source_change ready r)
        ≡ ok tt
      → IsExplained attempt ready seen.executed r
  unfolding says_no_change
  change-IsExplained attempt ready seen r true e h =
      inl (check_no_change-IsUnchanged attempt ready seen r h)
  change-IsExplained attempt ready seen r false e h =
      let (unfounded, unnamed) = check_source_change-ok ready r h in
      inr (not_some _ e, unfounded, unnamed)

  -- An outcome that the tests let pass.
  pub record IsPassed (seen : Seen) (r : OutcomeReceipt) : Type 0 where
    pub attempt : Fields
    pub was_started : seen.attempt ≡ some attempt
    pub order : get attempt (text "order_id") ≡ some (str r.order_id)
    pub task : get attempt (text "task_id") ≡ some (str r.task_id)
    pub route : get attempt (text "route_id") ≡ some (str r.route_id)
    pub open_attempt : seen.verdict ≡ none
    pub ready : Fields
    pub is_ready : seen.ready ≡ some ready
    pub commit :
        (accepted : Text)
        → r.verdict ≡ text "admitted"
        → r.accepted_commit ≡ some accepted
        → get ready (text "commit") ≡ some (str accepted)
    pub explained : IsExplained attempt ready seen.executed r
    pub agree :
        (executed configured : Text)
        → seen.family ≡ some executed
        → if_filled (families r.route_id) ≡ some configured
        → executed ≡ configured
    pub independent :
        (family : Text)
        → implementer seen.family (if_filled (families r.route_id)) ≡ some family
        → r.verdict ≡ text "admitted"
        → Any (λ reviewer. reviewer ≢ family) r.reviewer_families

  pub check_outcome-IsPassed :
      (seen : Seen) (r : OutcomeReceipt) {no_change : Bool}
      → check_outcome str_of candidate families seen r ≡ ok no_change
      → IsPassed seen r
  unfolding check_outcome
  check_outcome-IsPassed seen r h =
      let (attempt, found, h₁) = >>=-ok (require seen.attempt unknown_attempt) _ h in
      let (order, h₂) = refuse_if-ok _ _ _ h₁ in
      let (task, h₃) = refuse_if-ok _ _ _ h₂ in
      let (route, h₄) = refuse_if-ok _ _ _ h₃ in
      let (open_attempt, h₅) = refuse_if-ok _ _ _ h₄ in
      let (ready, is_ready, h₆) = >>=-ok (require seen.ready not_ready) _ h₅ in
      let (change, h₇) = >>-ok _ _ h₆ in
      let (commit, h₈) = refuse_if-ok _ _ _ h₇ in
      let (family, h₉) = refuse_if-ok _ _ _ h₈ in
      let (reviewers, done) = refuse_if-ok _ _ _ h₉ in
      record {
        attempt = attempt;
        was_started = require-ok seen.attempt unknown_attempt found;
        order = is_text-some _ r.order_id (not-not _ order);
        task = is_text-some _ r.task_id (not-not _ task);
        route = is_text-some _ r.route_id (not-not _ route);
        open_attempt = not_some seen.verdict open_attempt;
        ready = ready;
        is_ready = require-ok seen.ready not_ready is_ready;
        commit = λ accepted e k.
            is_value-some _ r.accepted_commit (unless _ _ commit (admitted_lem r e)) k;
        explained = change-IsExplained attempt ready seen r (says_no_change ready) refl change;
        agree = λ a b e k. families_differ-same _ _ a b family e k;
        independent = λ f e admitted.
            only_reviewer-other _ r.reviewer_families f
              (never _ _ reviewers (admitted_lem r admitted)) e;
      }
