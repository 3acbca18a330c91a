-- ===== src/Model/Proofs.antt =====
-- `BillingProof.valid`, and the checks of `ProofSubjectFile` and `AllowanceWindow`.
use idol_id_agents.Prelude.{
  ℕ, text, Bool, List, ◌&&◌, ◌||◌, not, ◌==◌, nat_eq, leb, ltb, is_empty, Result, first_refusal,
  first_refusal, [], ◌∷◌,
}
use idol_id_agents.Strings.{slash, starts_with}
use idol_id_agents.Model.{BillingProof, ProofSubjectFile, AllowanceWindow, whole}
use idol_id_agents.Model.Atoms.{is_digest}

unfoldable pub proof_valid : BillingProof → ℕ → Bool
proof_valid p now =
    p.trusted
    && not (is_empty p.kind)
    && not (is_empty p.subject_hash)
    && not (is_empty p.evidence_hash)
    && leb p.observed_at now
    && ltb now p.expires_at

pub data SubjectError : Type 0 where
  relative_subject irregular_subject untimed_subject inexact_subject_hash : SubjectError

-- The identity fields are natural numbers here, so the source's refusal of negative ones is empty.
-- The tests in the source's order, each with its refusal.
unfoldable pub subject_file_refusals : ProofSubjectFile → List (Bool × SubjectError)
subject_file_refusals f =
    (not (starts_with (slash ∷ []) f.path), relative_subject)
    ∷ (not (f.file_type == text "regular"), irregular_subject)
    ∷ (nat_eq f.mtime_ns 0 || nat_eq f.ctime_ns 0, untimed_subject)
    ∷ (not (is_digest f.sha256), inexact_subject_hash)
    ∷ []

unfoldable pub check_subject_file : ProofSubjectFile → Result SubjectError (Unit {0})
unfolding subject_file_refusals first_refusal
check_subject_file f = first_refusal (subject_file_refusals f)

pub data WindowError : Type 0 where
  fraction_bounds reset_not_positive : WindowError

-- The tests in the source's order, each with its refusal.
unfoldable pub window_refusals : AllowanceWindow → List (Bool × WindowError)
window_refusals w =
    (not (leb w.remaining_fraction whole), fraction_bounds)
    ∷ (nat_eq w.resets_at 0, reset_not_positive)
    ∷ []

unfoldable pub check_window : AllowanceWindow → Result WindowError (Unit {0})
unfolding window_refusals first_refusal
check_window w = first_refusal (window_refusals w)
