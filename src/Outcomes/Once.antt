-- ===== src/Outcomes/Once.antt =====
-- An attempt gets at most one terminal outcome.
use mathlib.Core.Path.{subst}
use idol_id_agents.Prelude.{
  ℕ, Text, text, Bool, true, false, ◌≡◌, ◌≢◌, refl, sym, ap, ◌∙◌, List, [], ◌∷◌, ◌++◌, Option, some,
  Json, obj, get, is_text, Result, ok, err, first_refusal-ok, ok-injective, Bool-cases, inl, inr,
  ◌⊎◌, ◌==◌, eq_iff, eq_refl, arith, not, All, false≢true,
}
use idol_id_agents.Model.Atoms.{member}
use idol_id_agents.Journal.{Row, Codec, File, Journal, next_row, read_locked, snapshot, append}
use idol_id_agents.Journal.Append.{IsCoherent, append-reads, snapshot-reads}
use idol_id_agents.Outcomes.Receipts.{
  OutcomeReceipt, OutcomeRefusal, verdicts, validate_receipt, receipt_refusals,
}
use idol_id_agents.Outcomes.{
  terminal_kinds, Recorded, nothing_seen, see_events, check_outcome, outcome_fact, outcome_kind,
  record_judged, record_behind, record_outcome, from_append, refused,
}
use idol_id_agents.Outcomes.Latest.{closes}
use idol_id_agents.Outcomes.Closed.{see_events-open}
use idol_id_agents.Outcomes.Checks.{check_outcome-IsPassed}

-- A verdict of a receipt is one of three.
verdict-cases :
    (v : Text)
    → member v verdicts ≡ true
    → (v ≡ text "admitted") ⊎ (v ≡ text "rejected") ⊎ (v ≡ text "reverted")
unfolding member
verdict-cases v h = elim (Bool-cases (v == text "admitted")) [
  | inl a ↦ inl ((eq_iff _ _).0 a)
  | inr na ↦ elim (Bool-cases (v == text "rejected")) [
    | inl b ↦ inr (inl ((eq_iff _ _).0 b))
    | inr nb ↦ inr (inr ((eq_iff _ _).0 (ground (arith, na, nb, h))))
  ]
]

valid-verdict : (r : OutcomeReceipt) → validate_receipt r ≡ ok tt → member r.verdict verdicts ≡ true
unfolding validate_receipt receipt_refusals
valid-verdict r h = let rows = (first_refusal-ok (receipt_refusals r)).0 h in flip _ rows.1.1.0
  where
    flip : (b : Bool) → not b ≡ false → b ≡ true
    flip true e = refl
    flip false e = cc

outcome_kind-terminal :
    (r : OutcomeReceipt)
    → validate_receipt r ≡ ok tt
    → member (outcome_kind r) terminal_kinds ≡ true
unfolding member ◌==◌
outcome_kind-terminal r valid =
    of_verdict r.verdict (verdict-cases r.verdict (valid-verdict r valid))
  where
    of_verdict :
        (v : Text)
        → (v ≡ text "admitted") ⊎ (v ≡ text "rejected") ⊎ (v ≡ text "reverted")
        → member (text "attempt." ++ v) terminal_kinds ≡ true
    of_verdict v (inl e) = rw e refl
    of_verdict v (inr (inl e)) = rw e refl
    of_verdict v (inr (inr e)) = rw e refl

outcome_fact-id :
    (no_change : Bool) (r : OutcomeReceipt)
    → is_text (get (outcome_fact no_change r) (text "attempt_id")) r.attempt_id ≡ true
unfolding outcome_fact get ◌==◌
outcome_fact-id no_change r = eq_refl r.attempt_id

-- The record of an outcome is a verdict on its attempt.
recorded-closes :
    (row : Row) (no_change : Bool) (r : OutcomeReceipt)
    → validate_receipt r ≡ ok tt
    → row.kind ≡ outcome_kind r
    → row.fact ≡ obj (outcome_fact no_change r)
    → closes r.attempt_id row ≡ true
recorded-closes row no_change r valid kind fact =
    rw (kind, fact, outcome_kind-terminal r valid, outcome_fact-id no_change r) refl

All-among :
    (P : Row → Type 0) (xs : List Row) (x : Row) (ys : List Row)
    → All P ((xs ++ x ∷ []) ++ ys)
    → P x
All-among P [] x ys h = h.0
All-among P (z ∷ xs) x ys h = All-among P xs x ys h.1

unit-cases : {E : Type 0} (m : Result E (Unit {0})) → (m ≡ ok tt) ⊎ ((e : E) × (m ≡ err e))
unit-cases (ok u) = inl refl
unit-cases (err e) = inr (e, refl)

outcome_kind-named : (r : OutcomeReceipt) → outcome_kind r ≢ []
outcome_kind-named r h = cc

module _ (str_of : Json → Text) (candidate : Option Json → Text → Option Text)
    (families : Text → Option Text) (c : Codec) where
  -- The decision of `record_outcome` on the rows of the journal.
  abbrev pub judged : List Row → OutcomeReceipt → Result OutcomeRefusal Bool
  judged rows r =
      check_outcome str_of candidate families (see_events str_of r.attempt_id rows nothing_seen) r

  record_outcome-valid :
      (stamp : ℕ) (r : OutcomeReceipt) (f : File) (j : Journal)
      → validate_receipt r ≡ ok tt
      → record_outcome str_of candidate families c stamp r f j
        ≡ record_behind str_of candidate families c stamp r f (snapshot c f j)
  unfolding record_outcome
  record_outcome-valid stamp r f j h = rw (h, record_outcome) refl

  record_outcome-invalid :
      (stamp : ℕ) (r : OutcomeReceipt) (f : File) (j : Journal) (e : OutcomeRefusal)
      → validate_receipt r ≡ err e
      → record_outcome str_of candidate families c stamp r f j ≡ (err (refused e), f, j)
  unfolding record_outcome
  record_outcome-invalid stamp r f j e h = rw (h, record_outcome) refl

  record_behind-judged :
      (stamp : ℕ) (r : OutcomeReceipt) (f : File) (known : Result _ (List Row) × Journal)
      (rows : List Row)
      → known.0 ≡ ok rows
      → record_behind str_of candidate families c stamp r f known
        ≡ record_judged str_of candidate families c stamp r f known.1 (judged rows r)
  unfolding record_behind
  record_behind-judged stamp r f (ok xs, j) rows h =
      ap (λ t. record_judged str_of candidate families c stamp r f j (judged t r)) (ok-injective h)
  record_behind-judged stamp r f (err e, j) rows h = cc

  -- What a call that returns has done.
  pub record IsDone (stamp : ℕ) (r : OutcomeReceipt) (f : File) (j : Journal) (rows : List Row)
      (row : Row) : Type 0 where
    pub valid : validate_receipt r ≡ ok tt
    pub no_change : Bool
    pub passed : judged rows r ≡ ok no_change
    pub same :
        record_outcome str_of candidate families c stamp r f j
        ≡ from_append (
            append c stamp
              (outcome_kind r)
              (outcome_fact no_change r)
              r.observed_at
              f
              (snapshot c f j).1)

  record_judged-passed :
      (stamp : ℕ) (r : OutcomeReceipt) (f : File) (j : Journal) (known : Result OutcomeRefusal Bool)
      {row : Row}
      → (record_judged str_of candidate families c stamp r f j known).0 ≡ ok row
      → (no_change : Bool) × (known ≡ ok no_change)
  unfolding record_judged
  record_judged-passed stamp r f j (ok b) h = (b, refl)
  record_judged-passed stamp r f j (err e) h = cc

  record_judged-append :
      (stamp : ℕ) (r : OutcomeReceipt) (f : File) (j : Journal) (known : Result OutcomeRefusal Bool)
      (no_change : Bool)
      → known ≡ ok no_change
      → record_judged str_of candidate families c stamp r f j known
        ≡ from_append (append c stamp (outcome_kind r) (outcome_fact no_change r) r.observed_at f j)
  unfolding record_judged
  record_judged-append stamp r f j known b h = rw h refl

  pub record_outcome-IsDone :
      (stamp : ℕ) (r : OutcomeReceipt) (f : File) (j : Journal) (rows : List Row) {row : Row}
      → (snapshot c f j).0 ≡ ok rows
      → (record_outcome str_of candidate families c stamp r f j).0 ≡ ok row
      → IsDone stamp r f j rows row
  record_outcome-IsDone stamp r f j rows known h = elim (unit-cases (validate_receipt r)) [
    | inr (e, bad) ↦ absurd (cc (h, record_outcome-invalid stamp r f j e bad))
    | inl valid ↦
        let same =
          record_outcome-valid stamp r f j valid
          ∙ record_behind-judged stamp r f (snapshot c f j) rows known in
        let (b, passed) =
          record_judged-passed stamp r f (snapshot c f j).1 (judged rows r)
            (sym (ap (λ o. o.0) same) ∙ h) in
        record {
          valid = valid;
          no_change = b;
          passed = passed;
          same = same ∙ record_judged-append stamp r f (snapshot c f j).1 (judged rows r) b passed;
        }
  ]

  from_append-kept :
      (a : Result _ Row × File × Journal) → ((from_append a).1 ≡ a.1) × ((from_append a).2 ≡ a.2)
  unfolding from_append
  from_append-kept (ok row, f, j) = (refl, refl)
  from_append-kept (err e, f, j) = (refl, refl)

  from_append-returned :
      (a : Result _ Row × File × Journal) {row : Row} → a.0 ≡ ok row → (from_append a).0 ≡ ok row
  unfolding from_append
  from_append-returned (ok x, f, j) h = ap ok (ok-injective h)
  from_append-returned (err e, f, j) h = cc

  -- The record of an outcome that the rows let pass gives, behind them, a line that decodes to it.
  abbrev pub OutcomeEncodes : OutcomeReceipt → List Row → Type 0
  OutcomeEncodes r rows =
      (no_change : Bool)
      → judged rows r ≡ ok no_change
      → (c.encode (next_row c rows (outcome_kind r) (outcome_fact no_change r) r.observed_at) ≢ [])
        × (c.decode
              (c.encode (next_row c rows (outcome_kind r) (outcome_fact no_change r) r.observed_at))
            ≡ some (next_row c rows (outcome_kind r) (outcome_fact no_change r) r.observed_at))

  -- A journal with a verdict on the attempt lets no further outcome of it pass.
  closed_refuses :
      (stamp : ℕ) (r : OutcomeReceipt) (f : File) (j : Journal) (before : List Row) (closing : Row)
      (behind : List Row) (row : Row)
      → IsCoherent c f j
      → read_locked c f.lines ≡ ok ((before ++ closing ∷ []) ++ behind)
      → closes r.attempt_id closing ≡ true
      → (record_outcome str_of candidate families c stamp r f j).0 ≢ ok row
  closed_refuses stamp r f j before closing behind row coherent readable closed h =
      let rows = (before ++ closing ∷ []) ++ behind in
      let (known, kept) = snapshot-reads c f j rows coherent readable in
      let done = record_outcome-IsDone stamp r f j rows known h in
      let passed = check_outcome-IsPassed str_of candidate families _ r done.passed in
      let open_rows = see_events-open str_of r.attempt_id rows nothing_seen passed.open_attempt in
      false≢true (
        sym (All-among (λ x. closes r.attempt_id x ≡ false) before closing behind open_rows)
        ∙ closed)

  -- What a call that returns leaves.
  pub record IsRecorded (r : OutcomeReceipt) (rows : List Row) (row : Row) (o : Recorded)
      : Type 0 where
    pub readable : read_locked c o.1.lines ≡ ok (rows ++ row ∷ [])
    pub coherent : IsCoherent c o.1 o.2
    pub terminated : o.1.terminated ≡ true
    pub closed : closes r.attempt_id row ≡ true

  record_outcome-IsRecorded :
      (stamp : ℕ) (r : OutcomeReceipt) (f : File) (j : Journal) (rows : List Row) (row : Row)
      → IsCoherent c f j
      → f.terminated ≡ true
      → read_locked c f.lines ≡ ok rows
      → OutcomeEncodes r rows
      → (record_outcome str_of candidate families c stamp r f j).0 ≡ ok row
      → IsRecorded r rows row (record_outcome str_of candidate families c stamp r f j)
  record_outcome-IsRecorded stamp r f j rows row coherent ended readable lines h =
      let (known, kept) = snapshot-reads c f j rows coherent readable in
      let done = record_outcome-IsDone stamp r f j rows known h in
      let b = done.no_change in
      let (filled, decoded) = lines b done.passed in
      let (returned, reads, fresh, ended_after) =
        append-reads c stamp (outcome_kind r) (outcome_fact b r) r.observed_at f (snapshot c f j).1
          rows (outcome_kind-named r) kept ended readable filled decoded in
      let next = next_row c rows (outcome_kind r) (outcome_fact b r) r.observed_at in
      let a =
        append c stamp (outcome_kind r) (outcome_fact b r) r.observed_at f (snapshot c f j).1 in
      let same : next ≡ row =
        ok-injective (sym (from_append-returned a returned) ∙ sym (ap (λ o. o.0) done.same) ∙ h) in
      let wrote = from_append-kept a in
      let made : IsRecorded r rows next (from_append a) = record {
        readable = subst (λ g. read_locked c g.lines ≡ ok (rows ++ next ∷ [])) (sym wrote.0) reads;
        coherent =
            subst (λ (p : File × Journal). IsCoherent c p.0 p.1)
              (λ i. (sym wrote.0 i, sym wrote.1 i)) fresh;
        terminated = ap (λ g. g.terminated) wrote.0 ∙ ended_after;
        closed = recorded-closes next b r done.valid refl refl;
      } in
      subst (λ t. IsRecorded r rows t (record_outcome str_of candidate families c stamp r f j)) same
        (subst (IsRecorded r rows next) (sym done.same) made)

  -- When an outcome of an attempt is recorded in a readable journal with a coherent cache, whose last
  -- line has its newline and where the record's line decodes to it, the file that is left reads as the
  -- old rows and the record, with a coherent cache; and on every readable journal with a coherent
  -- cache that begins with these rows, whatever rows follow, each further outcome of that attempt is
  -- refused.
  pub record_outcome-once :
      (stamp stamp' : ℕ) (r r' : OutcomeReceipt) (f g : File) (j k : Journal) (rows : List Row)
      (row : Row) (behind : List Row) (row' : Row)
      → IsCoherent c f j
      → f.terminated ≡ true
      → read_locked c f.lines ≡ ok rows
      → OutcomeEncodes r rows
      → (record_outcome str_of candidate families c stamp r f j).0 ≡ ok row
      → r'.attempt_id ≡ r.attempt_id
      → IsCoherent c g k
      → read_locked c g.lines ≡ ok ((rows ++ row ∷ []) ++ behind)
      → (let (result, f', j') = record_outcome str_of candidate families c stamp r f j in
          (read_locked c f'.lines ≡ ok (rows ++ row ∷ []))
          × IsCoherent c f' j'
          × ((record_outcome str_of candidate families c stamp' r' g k).0 ≢ ok row'))
  record_outcome-once stamp stamp' r r' f g j k rows row behind row' coherent ended readable lines h
        same_id coherent' readable' =
      let done = record_outcome-IsRecorded stamp r f j rows row coherent ended readable lines h in
      (
        done.readable,
        done.coherent,
        closed_refuses stamp' r' g k rows row behind row' coherent' readable'
            (subst (λ id. closes id row ≡ true) (sym same_id) done.closed),
      )
