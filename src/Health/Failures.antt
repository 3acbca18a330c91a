-- ===== src/Health/Failures.antt =====
-- A failure that is recorded opens the breaker of its route.
use mathlib.Core.Path.{subst}
use idol_id_agents.Prelude.{
  false≢true, false, eq_iff, obj, ℕ, zero, suc, ◌+◌, ◌*◌, ◌<◌, max, Text, true, ◌≡◌, ◌≢◌, refl, sym,
  ◌∙◌, List, [], ◌∷◌, ◌++◌, ◌==◌, eq_refl, some, Result, ok, err, Fields, get, arith, ok-injective,
}
use idol_id_agents.Model.{Route, second}
use idol_id_agents.Journal.{
  Row, JournalError, Codec, File, Journal, next_row, read_locked, snapshot, append,
}
use idol_id_agents.Journal.Append.{IsCoherent, append-reads, snapshot-reads}
use idol_id_agents.Health.{
  CircuitState, backoff_seconds, is_open, failed_kind, succeeded_kind, names_route, circuit_state,
  failure_fact, failure_behind, record_failure,
}
use idol_id_agents.Health.Breaker.{BreakerStep, IsFailure, failure, success, other, step-failure}

failed_kind-named : failed_kind ≢ []
failed_kind-named h = cc

kinds_apart : (failed_kind == succeeded_kind) ≡ false
unfolding ◌==◌
kinds_apart = refl

later-backoff : (n at : ℕ) → at < at + backoff_seconds n * second
unfolding backoff_seconds
later-backoff zero at = omega arith
later-backoff (suc zero) at = omega arith
later-backoff (suc (suc zero)) at = omega arith
later-backoff (suc (suc (suc n))) at = omega arith

opens :
    (s : CircuitState) (n m at until : ℕ)
    → s.consecutive_failures ≡ n + 1
    → s.opened_until ≡ max m until
    → at < until
    → is_open s at ≡ true
unfolding is_open
opens s n m at until failures opened h = ground arith

module _ (subject_hash : Route → Text) (route : Route) (error_type error : Text) (at : ℕ) where
  abbrev pub fact_behind : List Row → Fields
  fact_behind rows =
      failure_fact subject_hash (circuit_state subject_hash rows route) route error_type error at

  fact-named :
      (rows : List Row) → names_route route.id (subject_hash route) (obj (fact_behind rows)) ≡ true
  unfolding names_route failure_fact circuit_state get ◌==◌
  fact-named rows = ground (arith, eq_refl route.id, eq_refl (subject_hash route))

  failure-opens :
      (row : Row) (before after : CircuitState)
      → row.at ≡ at
      → IsFailure route.id (subject_hash route) row
      → BreakerStep subject_hash route row before after
      → (after.consecutive_failures ≡ before.consecutive_failures + 1) × (is_open after at ≡ true)
  failure-opens row before after same f (failure h failures opened) = (
    failures,
    opens after before.consecutive_failures before.opened_until at _ failures opened
        (rw same (later-backoff before.consecutive_failures at)),
  )
  failure-opens row before after same f (success h failures opened) =
      absurd (false≢true (sym kinds_apart ∙ (eq_iff _ _).1 (sym f.kind ∙ h.kind)))
  failure-opens row before after same f (other nf ns failures opened) = absurd (nf f)

  module _ (c : Codec) where
    -- The record that a failure writes behind some rows.
    abbrev pub failed_row : List Row → Row
    failed_row rows = next_row c rows failed_kind (fact_behind rows) at

    -- What a recorded failure leaves.
    pub record IsOpened (rows : List Row) (outcome : Result JournalError Row × File × Journal)
        : Type 0 where
      pub returned : outcome.0 ≡ ok (failed_row rows)
      pub readable : read_locked c outcome.1.lines ≡ ok (rows ++ failed_row rows ∷ [])
      pub coherent : IsCoherent c outcome.1 outcome.2
      pub terminated : outcome.1.terminated ≡ true
      pub counted :
          (circuit_state subject_hash (rows ++ failed_row rows ∷ []) route).consecutive_failures
          ≡ (circuit_state subject_hash rows route).consecutive_failures + 1
      pub opened :
          is_open (circuit_state subject_hash (rows ++ failed_row rows ∷ []) route) at ≡ true

    failure_behind-IsOpened :
        (stamp : ℕ) (f : File) (rows : List Row) (known : Result JournalError (List Row) × Journal)
        → known.0 ≡ ok rows
        → IsCoherent c f known.1
        → f.terminated ≡ true
        → read_locked c f.lines ≡ ok rows
        → c.encode (failed_row rows) ≢ []
        → c.decode (c.encode (failed_row rows)) ≡ some (failed_row rows)
        → IsOpened rows (failure_behind subject_hash c stamp route error_type error at f known)
    unfolding failure_behind
    failure_behind-IsOpened stamp f rows (err e, j) h coherent ended readable filled decoded =
        absurd (cc h)
    failure_behind-IsOpened stamp f rows (ok xs, j) h coherent ended readable filled decoded =
        let same : rows ≡ xs = sym (ok-injective h) in
        let (returned, reads, fresh, ended_after) =
          append-reads c stamp failed_kind (fact_behind rows) at f j rows failed_kind-named coherent
            ended readable filled decoded in
        let is_failure : IsFailure route.id (subject_hash route) (failed_row rows) = record {
          kind = refl;
          named = fact-named rows;
        } in
        let (counted, opened) =
          failure-opens (failed_row rows) _ _ refl is_failure
            (step-failure subject_hash route rows (failed_row rows) is_failure) in
        subst (λ ys. IsOpened rows (append c stamp failed_kind (fact_behind ys) at f j)) same
          (record {
            returned = returned;
            readable = reads;
            coherent = fresh;
            terminated = ended_after;
            counted = counted;
            opened = opened;
          })

    -- Recording a failure in a readable journal with a coherent cache, whose last line has its
    -- newline and where the record's line decodes to it, returns the record and leaves such a
    -- journal, in which
    -- the route has one more failure than before and its breaker is open.
    pub record_failure-IsOpened :
        (stamp : ℕ) (f : File) (j : Journal) (rows : List Row)
        → IsCoherent c f j
        → f.terminated ≡ true
        → read_locked c f.lines ≡ ok rows
        → c.encode (failed_row rows) ≢ []
        → c.decode (c.encode (failed_row rows)) ≡ some (failed_row rows)
        → IsOpened rows (record_failure subject_hash c stamp route error_type error at f j)
    unfolding record_failure
    record_failure-IsOpened stamp f j rows coherent ended readable filled decoded =
        let (known, kept) = snapshot-reads c f j rows coherent readable in
        failure_behind-IsOpened stamp f rows (snapshot c f j) known kept ended readable filled
          decoded
