-- ===== src/Tests/Verdicts.antt =====
-- A journal with one attempt that is ready, and its rejection.
use idol_id_agents.Prelude.{
  false≢true, Text, text, true, false, ◌≡◌, ◌≢◌, refl, sym, ◌∙◌, List, [], ◌∷◌, ◌++◌, Option, none,
  some, Json, Fields, obj, str, end, field, ok, ok-injective,
}
use idol_id_agents.Journal.{Row, Codec, File, genesis, read_locked}
use idol_id_agents.Journal.Append.{IsCoherent}
use idol_id_agents.Outcomes.Receipts.{OutcomeReceipt}
use idol_id_agents.Outcomes.{see_events, check_outcome, outcome_fact, record_outcome}
use idol_id_agents.Outcomes.Accepted.{IsAccepted, record_outcome-IsAccepted}
use idol_id_agents.Outcomes.Once.{judged, OutcomeEncodes, record_outcome-once}
use idol_id_agents.Tests.Samples.{fresh_journal}

abbrev str_of : Json → Text
str_of v = text "?"

abbrev no_candidate : Option Json → Text → Option Text
no_candidate found id = none

abbrev one_family : Text → Option Text
one_family route = some (text "fam")

abbrev receipt : OutcomeReceipt
receipt = record {
  schema = text "idol.fleet.outcome.v1";
  attempt_id = text "n";
  order_id = text "a";
  task_id = text "t";
  route_id = text "r1";
  verdict = text "rejected";
  accepted_commit = none;
  reviewer_families = [];
  semantic_increment = 0;
  accepted_tokens = 0;
  defects = 1;
  observed_at = 9;
  evidence = text "e";
  candidate_evidence_sha256 = none;
}

abbrev reverted_receipt : OutcomeReceipt
reverted_receipt = record receipt { verdict = text "reverted" }

abbrev attempt_fact : Fields
attempt_fact = field (text "attempt_id") (str (text "n")) (
    field (text "order_id") (str (text "a"))
      (field (text "task_id") (str (text "t")) (field (text "route_id") (str (text "r1")) end)))

abbrev begun_row : Row
begun_row = record {
  sequence = 1;
  at = 0;
  kind = text "attempt.started";
  previous = genesis;
  fact = obj attempt_fact;
  hash = text "d";
}

abbrev ready_row : Row
ready_row = record {
  sequence = 2;
  at = 1;
  kind = text "attempt.ready";
  previous = text "d";
  fact = obj attempt_fact;
  hash = text "d";
}

abbrev outcome_row : Row
outcome_row = record {
  sequence = 3;
  at = 9;
  kind = text "attempt.rejected";
  previous = text "d";
  fact = obj (outcome_fact false receipt);
  hash = text "d";
}

-- A later execution of the attempt.
abbrev executed_row : Row
executed_row = record {
  sequence = 4;
  at = 10;
  kind = text "attempt.executed";
  previous = text "d";
  fact = obj attempt_fact;
  hash = text "d";
}

-- The lines are told apart by their lengths.
abbrev line_row : Text → Option Row
line_row [] = none
line_row (x ∷ []) = some begun_row
line_row (x ∷ (y ∷ [])) = some ready_row
line_row (x ∷ (y ∷ (z ∷ []))) = some outcome_row
line_row (x ∷ (y ∷ (z ∷ (w ∷ rest)))) = some executed_row

abbrev attempt_codec : Codec
attempt_codec = record {
  digest = λ n at kind previous fact. text "d";
  decode = line_row;
  encode = λ r. text "xyz";
}

abbrev attempt_log : File
attempt_log = record { lines = text "x" ∷ text "xy" ∷ []; terminated = true; stamp = 0 }

abbrev attempt_rows : List Row
attempt_rows = begun_row ∷ ready_row ∷ []

attempt_read : read_locked attempt_codec attempt_log.lines ≡ ok attempt_rows
unfolding read_locked
attempt_read = refl

attempt-IsCoherent : IsCoherent attempt_codec attempt_log fresh_journal
attempt-IsCoherent h = cc

receipt_passes : judged str_of no_candidate one_family attempt_codec attempt_rows receipt ≡ ok false
unfolding see_events check_outcome
receipt_passes = refl

receipt-OutcomeEncodes :
    OutcomeEncodes str_of no_candidate one_family attempt_codec receipt attempt_rows
receipt-OutcomeEncodes false h = (λ e. cc, refl)
receipt-OutcomeEncodes true h = absurd (false≢true (ok-injective (sym receipt_passes ∙ h)))

receipt_recorded :
    (let o =
        record_outcome str_of no_candidate one_family attempt_codec 1 receipt attempt_log
          fresh_journal in
      o.0 ≡ ok outcome_row)
unfolding record_outcome
receipt_recorded = refl

record_outcome-IsAccepted_example : IsAccepted str_of no_candidate one_family attempt_rows receipt
record_outcome-IsAccepted_example =
    record_outcome-IsAccepted str_of no_candidate one_family attempt_codec 1 receipt attempt_log
      fresh_journal attempt_rows outcome_row attempt-IsCoherent attempt_read receipt_recorded

-- The journal some time later.
abbrev later_log : File
later_log = record {
  lines = text "x" ∷ text "xy" ∷ text "xyz" ∷ text "xyzw" ∷ [];
  terminated = true;
  stamp = 5;
}

later-IsCoherent : IsCoherent attempt_codec later_log fresh_journal
later-IsCoherent h = cc

later_read :
    read_locked attempt_codec later_log.lines
    ≡ ok ((attempt_rows ++ outcome_row ∷ []) ++ executed_row ∷ [])
unfolding read_locked
later_read = refl

record_outcome-once_example :
    (let (result, f', j') =
        record_outcome str_of no_candidate one_family attempt_codec 1 receipt attempt_log
          fresh_journal in
      (read_locked attempt_codec f'.lines ≡ ok (attempt_rows ++ outcome_row ∷ []))
      × IsCoherent attempt_codec f' j'
      × ((record_outcome str_of no_candidate one_family attempt_codec 6 reverted_receipt later_log
            fresh_journal).0
          ≢ ok outcome_row))
record_outcome-once_example =
    record_outcome-once str_of no_candidate one_family attempt_codec 1 6 receipt reverted_receipt
      attempt_log later_log fresh_journal fresh_journal attempt_rows outcome_row (executed_row ∷ [])
      outcome_row attempt-IsCoherent refl attempt_read receipt-OutcomeEncodes receipt_recorded refl
      later-IsCoherent later_read
