-- ===== src/Outcomes/Receipts.antt =====
-- `OutcomeReceipt` and `_validate_receipt`. The semantic increment is in millionths, so it is finite
-- and not negative, like the numbers of tokens and defects.
use idol_id_agents.Prelude.{
  ℕ, ◌*◌, Text, text, Bool, ◌&&◌, ◌||◌, not, List, [], ◌∷◌, any, is_empty, ◌==◌, nat_eq, ltb,
  length, Option, none, some, Result, first_refusal,
}
use idol_id_agents.Strings.{strip}
use idol_id_agents.Model.{whole}
use idol_id_agents.Model.Atoms.{member, is_digest}

pub record OutcomeReceipt : Type 0 where
  pub schema : Text
  pub attempt_id : Text
  pub order_id : Text
  pub task_id : Text
  pub route_id : Text
  pub verdict : Text
  pub accepted_commit : Option Text
  pub reviewer_families : List Text
  pub semantic_increment : ℕ
  pub accepted_tokens : ℕ
  pub defects : ℕ
  pub observed_at : ℕ
  pub evidence : Text
  pub candidate_evidence_sha256 : Option Text

pub data OutcomeRefusal : Type 0 where
  schema_mismatch identity_missing verdict_not_closed increment_bounds : OutcomeRefusal
  inexact_candidate_hash uncanonical_reviewers inexact_commit reviewers_missing : OutcomeRefusal
  progress_missing : OutcomeRefusal
  unknown_attempt order_mismatch task_mismatch route_mismatch already_terminal : OutcomeRefusal
  not_ready invalid_marker base_mismatch base_not_accepted commit_not_admitted : OutcomeRefusal
  paths_present candidate_unbound candidate_invalid candidate_mismatch : OutcomeRefusal
  output_mismatch unexplained_candidate commit_mismatch family_mismatch : OutcomeRefusal
  not_independent : OutcomeRefusal

abbrev pub verdicts : List Text
verdicts = text "admitted" ∷ text "rejected" ∷ text "reverted" ∷ []

unfoldable pub is_admitted : OutcomeReceipt → Bool
unfolding ◌==◌
is_admitted r = r.verdict == text "admitted"

abbrev pub inexact_hash : Option Text → Bool
inexact_hash none = Bool.false
inexact_hash (some hash) = not (is_digest hash)

abbrev pub lacks_commit : Option Text → Bool
lacks_commit none = Bool.true
lacks_commit (some commit) = not (nat_eq (length commit) 40)

-- The tests in the source's order, each with its refusal.
unfoldable pub receipt_refusals : OutcomeReceipt → List (Bool × OutcomeRefusal)
receipt_refusals r =
    (not (r.schema == text "idol.fleet.outcome.v1"), schema_mismatch)
    ∷ (
      is_empty r.attempt_id
          || is_empty r.order_id
          || is_empty r.task_id
          || is_empty r.route_id
          || is_empty r.evidence,
      identity_missing,
    )
    ∷ (not (member r.verdict verdicts), verdict_not_closed)
    ∷ (ltb (100 * whole) r.semantic_increment, increment_bounds)
    ∷ (inexact_hash r.candidate_evidence_sha256, inexact_candidate_hash)
    ∷ (
      any (λ family. is_empty (strip family) || not (family == strip family)) r.reviewer_families,
      uncanonical_reviewers,
    )
    ∷ (is_admitted r && lacks_commit r.accepted_commit, inexact_commit)
    ∷ (is_admitted r && is_empty r.reviewer_families, reviewers_missing)
    ∷ (
      is_admitted r && (nat_eq r.semantic_increment 0 || nat_eq r.accepted_tokens 0),
      progress_missing,
    )
    ∷ []

-- `_validate_receipt`.
unfoldable pub validate_receipt : OutcomeReceipt → Result OutcomeRefusal (Unit {0})
unfolding receipt_refusals first_refusal is_digest strip member is_admitted
validate_receipt r = first_refusal (receipt_refusals r)
