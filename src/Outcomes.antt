-- ===== src/Outcomes.antt =====
-- fleet_control/performance.py, `record_outcome`: the terminal verdict on an attempt, recorded once.
-- `candidate` stands for validate_candidate_evidence of fleet_control/evidence.py, which reads a file:
-- the SHA-256 of the evidence that a ready fact names for an attempt, if it is valid. `str_of` is
-- `str` at a JSON value that is no text, and `families` the mapping `route_families`.
pub mod Receipts
pub mod Latest
pub mod Closed
pub mod Guards
pub mod Checks
pub mod Once
pub mod Accepted
use idol_id_agents.Prelude.{
  ℕ, Text, text, Bool, true, false, ◌&&◌, ◌||◌, not, List, [], ◌∷◌, ◌++◌, all, is_empty, ◌==◌,
  Option, none, some, or_else, Json, Items, Fields, null, bool, num, str, arr, obj, nil, cons, end,
  field, get, is_text, is_falsy, Result, ok, err, ◌>>=◌, ◌>>◌, refuse_if, if◌then◌else◌,
}
use idol_id_agents.Model.Atoms.{member, is_sha}
use idol_id_agents.Journal.{Row, JournalError, Codec, File, Journal, snapshot, append}
use idol_id_agents.Outcomes.Receipts.{
  OutcomeReceipt, OutcomeRefusal, validate_receipt, is_admitted, unknown_attempt, order_mismatch,
  task_mismatch, route_mismatch, already_terminal, not_ready, invalid_marker, base_mismatch,
  base_not_accepted, commit_not_admitted, paths_present, candidate_unbound, candidate_invalid,
  candidate_mismatch, output_mismatch, unexplained_candidate, commit_mismatch, family_mismatch,
  not_independent,
}

-- The variables of the loop over the journal.
pub record Seen : Type 0 where
  pub attempt : Option Fields
  pub ready : Option Fields
  pub executed : Option Fields
  pub family : Option Text
  pub verdict : Option Text

abbrev pub nothing_seen : Seen
nothing_seen = record {
  attempt = none;
  ready = none;
  executed = none;
  family = none;
  verdict = none;
}

abbrev pub terminal_kinds : List Text
terminal_kinds = text "attempt.admitted" ∷ text "attempt.rejected" ∷ text "attempt.reverted" ∷ []

-- `text or None`.
abbrev pub if_filled : Option Text → Option Text
if_filled none = none
if_filled (some []) = none
if_filled (some (x ∷ rest)) = some (x ∷ rest)

abbrev pub is_some : {A : Type 0} → Option A → Bool
is_some none = false
is_some (some a) = true

-- `value != expected`, where `expected` is a text or None.
unfoldable pub is_value : Option Json → Option Text → Bool
is_value found (some t) = is_text found t
is_value none none = true
is_value (some null) none = true
is_value (some _) none = false

unfoldable pub is_true : Option Json → Bool
is_true (some (bool true)) = true
is_true _ = false

unfoldable pub is_no_items : Option Json → Bool
is_no_items (some (arr nil)) = true
is_no_items _ = false

module _ (str_of : Json → Text) where
  abbrev pub text_of : Json → Text
  text_of (str t) = t
  text_of v = str_of v

  -- `str(fact.get("provider_family") or "") or None`.
  unfoldable pub family_of : Option Json → Option Text
  unfolding is_falsy
  family_of none = none
  family_of (some v) = if is_falsy v then none else if_filled (some (text_of v))

  -- The four tests of a row that names the attempt; `existing_verdict` is kept as the whole kind.
  unfoldable pub see_kind : Text → Fields → Seen → Seen
  unfolding ◌==◌ member
  see_kind kind fact s =
      if kind == text "attempt.started"
      then record s { attempt = some fact }
      else if kind == text "attempt.ready"
      then record s { ready = some fact }
      else if kind == text "attempt.executed"
      then record s { executed = some fact; family = family_of (get fact (text "provider_family")) }
      else if member kind terminal_kinds
      then record s { verdict = some kind }
      else s

  unfoldable pub see_event : Text → Text → Json → Seen → Seen
  unfolding see_kind get
  see_event attempt_id kind (obj fact) s =
      if is_text (get fact (text "attempt_id")) attempt_id then see_kind kind fact s else s
  see_event attempt_id kind _ s = s

  -- The loop over the journal.
  unfoldable pub see_events : Text → List Row → Seen → Seen
  unfolding see_event
  see_events attempt_id [] s = s
  see_events attempt_id (row ∷ rest) s =
      see_events attempt_id rest (see_event attempt_id row.kind row.fact s)

abbrev pub require : {A : Type 0} → Option A → OutcomeRefusal → Result OutcomeRefusal A
require none e = err e
require (some a) e = ok a

abbrev pub same_text : Option Text → Text → Bool
same_text none t = false
same_text (some s) t = s == t

abbrev pub has_text : Option Fields → Text → Text → Bool
has_text none key t = false
has_text (some fact) key t = is_text (get fact key) t

-- The base of a no-change attempt, if its three tests pass.
abbrev pub exact_base : Fields → Option Json → Option Text
exact_base ready (some (str base)) =
    if is_sha base
      && is_text (get ready (text "base_sha")) base
      && is_text (get ready (text "commit")) base
    then some base
    else none
exact_base ready _ = none

-- The branch of a fact that does not.
unfoldable pub check_source_change : Fields → OutcomeReceipt → Result OutcomeRefusal (Unit {0})
unfolding get
check_source_change ready r =
    refuse_if
      (is_some (get ready (text "candidate_evidence")) || is_some r.candidate_evidence_sha256)
      unexplained_candidate

unfoldable pub says_no_change : Fields → Bool
unfolding get
says_no_change ready = is_some (get ready (text "no_change"))

-- Both families are known and differ.
abbrev pub families_differ : Option Text → Option Text → Bool
families_differ (some executed) (some configured) = not (executed == configured)
families_differ _ _ = false

-- `implementer_family or configured_family`.
abbrev pub implementer : Option Text → Option Text → Option Text
implementer none configured = configured
implementer (some executed) configured = some executed

abbrev pub only_reviewer : Option Text → List Text → Bool
only_reviewer none reviewers = false
only_reviewer (some family) reviewers = all (λ f. f == family) reviewers

abbrev pub text_or_null : Option Text → Json
text_or_null none = null
text_or_null (some t) = str t

pub names_of : List Text → Items
names_of [] = nil
names_of (t ∷ rest) = cons (str t) (names_of rest)

abbrev pub change_fields : Bool → OutcomeReceipt → Fields
change_fields false r = end
change_fields true r =
    field (text "no_change") (bool true)
      (field (text "candidate_evidence_sha256") (text_or_null r.candidate_evidence_sha256) end)

-- The fact that is appended.
unfoldable pub outcome_fact : Bool → OutcomeReceipt → Fields
unfolding names_of
outcome_fact no_change r = field (text "attempt_id") (str r.attempt_id) (
    field (text "order_id") (str r.order_id) (
      field (text "task_id") (str r.task_id) (
        field (text "route_id") (str r.route_id) (
          field (text "accepted_commit") (text_or_null r.accepted_commit) (
            field (text "reviewer_families") (arr (names_of r.reviewer_families)) (
              field (text "semantic_increment") (num r.semantic_increment) (
                field (text "accepted_tokens") (num r.accepted_tokens) (
                  field (text "defects") (num r.defects)
                    (field (text "evidence") (str r.evidence) (change_fields no_change r))))))))))

abbrev pub outcome_kind : OutcomeReceipt → Text
outcome_kind r = text "attempt." ++ r.verdict

pub data RecordError : Type 0 where
  refused : OutcomeRefusal → RecordError
  unreadable : JournalError → RecordError

abbrev pub Recorded : Type 0
Recorded = Result RecordError Row × File × Journal

pub from_append : Result JournalError Row × File × Journal → Recorded
from_append (ok row, f, j) = (ok row, f, j)
from_append (err e, f, j) = (err (unreadable e), f, j)

module _ (str_of : Json → Text) (candidate : Option Json → Text → Option Text)
    (families : Text → Option Text) where
  -- The branch of a fact that says `no_change`.
  unfoldable pub check_no_change :
      Fields → Fields → Seen → OutcomeReceipt → Result OutcomeRefusal (Unit {0})
  unfolding get ◌==◌ is_true is_no_items is_admitted is_sha
  check_no_change attempt ready seen r = do
    refuse_if (not (is_true (get ready (text "no_change")))) invalid_marker
    base ← require (exact_base ready (get attempt (text "base_sha"))) base_mismatch
    refuse_if (is_admitted r && not (same_text r.accepted_commit base)) base_not_accepted
    refuse_if (not (is_admitted r) && is_some r.accepted_commit) commit_not_admitted
    refuse_if (not (is_no_items (get ready (text "paths")))) paths_present
    refuse_if (not (is_some r.candidate_evidence_sha256)) candidate_unbound
    hash ←
        require (candidate (get ready (text "candidate_evidence")) r.attempt_id) candidate_invalid
    refuse_if (not (same_text r.candidate_evidence_sha256 hash)) candidate_mismatch
    refuse_if (not (has_text seen.executed (text "stdout_hash") hash)) output_mismatch
    ok tt

  -- The tests behind the loop; what returns is whether the outcome is one without a change.
  unfoldable pub check_outcome : Seen → OutcomeReceipt → Result OutcomeRefusal Bool
  unfolding get ◌==◌ check_no_change check_source_change says_no_change is_admitted is_value
  check_outcome seen r = do
    attempt ← require seen.attempt unknown_attempt
    refuse_if (not (is_text (get attempt (text "order_id")) r.order_id)) order_mismatch
    refuse_if (not (is_text (get attempt (text "task_id")) r.task_id)) task_mismatch
    refuse_if (not (is_text (get attempt (text "route_id")) r.route_id)) route_mismatch
    refuse_if (is_some seen.verdict) already_terminal
    ready ← require seen.ready not_ready
    if says_no_change ready
        then check_no_change attempt ready seen r
        else check_source_change ready r
    refuse_if (is_admitted r && not (is_value (get ready (text "commit")) r.accepted_commit))
        commit_mismatch
    let configured = if_filled (families r.route_id)
    refuse_if (families_differ seen.family configured) family_mismatch
    refuse_if
        (is_admitted r && only_reviewer (implementer seen.family configured) r.reviewer_families)
        not_independent
    ok (says_no_change ready)

  module _ (c : Codec) (stamp : ℕ) where
    -- The append, from what the tests say.
    pub record_judged : OutcomeReceipt → File → Journal → Result OutcomeRefusal Bool → Recorded
    record_judged r f j (err e) = (err (refused e), f, j)
    record_judged r f j (ok no_change) =
        from_append (append c stamp (outcome_kind r) (outcome_fact no_change r) r.observed_at f j)

    -- The call behind `_validate_receipt`, from the snapshot.
    pub record_behind : OutcomeReceipt → File → Result JournalError (List Row) × Journal → Recorded
    record_behind r f (err e, j) = (err (unreadable e), f, j)
    record_behind r f (ok rows, j) =
        record_judged r f j (check_outcome (see_events str_of r.attempt_id rows nothing_seen) r)

    -- `record_outcome`.
    unfoldable pub record_outcome : OutcomeReceipt → File → Journal → Recorded
    unfolding validate_receipt snapshot record_behind record_judged check_outcome see_events append
        from_append outcome_fact
    record_outcome r f j = elim (validate_receipt r) [
      | err e ↦ (err (refused e), f, j)
      | ok valid ↦ record_behind r f (snapshot c f j)
    ]
