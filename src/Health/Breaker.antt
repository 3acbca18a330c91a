-- ===== src/Health/Breaker.antt =====
-- What the breaker remembers: the failures since the last success, and how long they keep it open.
use idol_id_agents.Prelude.{
  Bool-cases, false≢true, ℕ, ◌+◌, ◌*◌, max, Text, Bool, true, false, ◌≡◌, ◌≢◌, inl, inr, refl, sym,
  ap, ◌∙◌, List, [], ◌∷◌, ◌++◌, ◌==◌, eq_iff, eq_refl, keep, keep-append, any, arith,
}
use idol_id_agents.Model.{Route, second}
use idol_id_agents.Journal.{Row, events}
use idol_id_agents.Health.{
  backoff_seconds, CircuitState, failed_kind, succeeded_kind, names_route, see_row, see_rows,
  circuit_state,
}

module _ (id subject : Text) where
  see_rows-append :
      (xs ys : List Row) (acc : ℕ × ℕ)
      → see_rows id subject (xs ++ ys) acc ≡ see_rows id subject ys (see_rows id subject xs acc)
  unfolding see_rows
  see_rows-append [] ys acc = refl
  see_rows-append (x ∷ xs) ys acc = see_rows-append xs ys (see_row id subject x acc)

  -- A failure of the route, and a success of it.
  pub record IsFailure (row : Row) : Type 0 where
    pub kind : row.kind ≡ failed_kind
    pub named : names_route id subject row.fact ≡ true

  pub record IsSuccess (row : Row) : Type 0 where
    pub kind : row.kind ≡ succeeded_kind
    pub named : names_route id subject row.fact ≡ true

  kinds_differ : (failed_kind == succeeded_kind) ≡ false
  unfolding ◌==◌
  kinds_differ = refl

  see_failure :
      (row : Row) (acc : ℕ × ℕ)
      → IsFailure row
      → see_row id subject row acc
        ≡ (acc.0 + 1, max acc.1 (row.at + backoff_seconds acc.0 * second))
  unfolding see_row
  see_failure row acc h =
      let kind : (row.kind == succeeded_kind) ≡ false =
        ap (λ k. k == succeeded_kind) h.kind ∙ kinds_differ in
      rw (h.named, kind) refl

  see_success : (row : Row) (acc : ℕ × ℕ) → IsSuccess row → see_row id subject row acc ≡ (0, 0)
  unfolding see_row
  see_success row acc h =
      let kind : (row.kind == succeeded_kind) ≡ true =
        ap (λ k. k == succeeded_kind) h.kind ∙ eq_refl succeeded_kind in
      rw (h.named, kind) refl

  see_other :
      (row : Row) (acc : ℕ × ℕ)
      → names_route id subject row.fact ≡ false
      → see_row id subject row acc ≡ acc
  unfolding see_row
  see_other row acc h = rw h refl

abbrev kinds : List Text
kinds = failed_kind ∷ succeeded_kind ∷ []

abbrev is_kind : Row → Bool
is_kind row = any (λ k. row.kind == k) kinds

events-snoc :
    (rows : List Row) (row : Row)
    → events kinds (rows ++ row ∷ []) ≡ events kinds rows ++ keep is_kind (row ∷ [])
unfolding events
events-snoc rows row = keep-append is_kind rows (row ∷ [])

kept : (row : Row) → is_kind row ≡ true → keep is_kind (row ∷ []) ≡ row ∷ []
kept row h = rw h refl

dropped : (row : Row) → is_kind row ≡ false → keep is_kind (row ∷ []) ≡ []
dropped row h = rw h refl

failure-kind : (row : Row) → row.kind ≡ failed_kind → is_kind row ≡ true
failure-kind row h = ground (arith, eq_iff row.kind failed_kind)

success-kind : (row : Row) → row.kind ≡ succeeded_kind → is_kind row ≡ true
success-kind row h = ground (arith, eq_iff row.kind succeeded_kind)

other-kind : (row : Row) → row.kind ≢ failed_kind → row.kind ≢ succeeded_kind → is_kind row ≡ false
other-kind row f s = ground (arith, eq_iff row.kind failed_kind, eq_iff row.kind succeeded_kind)

module _ (subject_hash : Route → Text) (route : Route) where
  abbrev state : List Row → CircuitState
  state rows = circuit_state subject_hash rows route

  abbrev counters : CircuitState → ℕ × ℕ
  counters s = (s.consecutive_failures, s.opened_until)

  counters-snoc :
      (rows : List Row) (row : Row)
      → counters (state (rows ++ row ∷ []))
        ≡ see_rows route.id (subject_hash route) (keep is_kind (row ∷ [])) (counters (state rows))
  unfolding circuit_state
  counters-snoc rows row =
      let subject = subject_hash route in
      ap (λ l. see_rows route.id subject l (0, 0)) (events-snoc rows row)
      ∙ see_rows-append route.id subject (events kinds rows) (keep is_kind (row ∷ [])) (0, 0)

  -- What a record does to the breaker of the route: a failure of it adds one and keeps it open for
  -- the next backoff, a success of it closes it, and any other record leaves it alone.
  pub data BreakerStep (row : Row) (before after : CircuitState) : Type 0 where
    failure :
        IsFailure route.id (subject_hash route) row
        → after.consecutive_failures ≡ before.consecutive_failures + 1
        → after.opened_until
          ≡ max before.opened_until (row.at + backoff_seconds before.consecutive_failures * second)
        → BreakerStep row before after
    success :
        IsSuccess route.id (subject_hash route) row
        → after.consecutive_failures ≡ 0
        → after.opened_until ≡ 0
        → BreakerStep row before after
    other :
        ¬ IsFailure route.id (subject_hash route) row
        → ¬ IsSuccess route.id (subject_hash route) row
        → after.consecutive_failures ≡ before.consecutive_failures
        → after.opened_until ≡ before.opened_until
        → BreakerStep row before after

  named_step :
      (rows : List Row) (row : Row) (e : is_kind row ≡ true)
      → counters (state (rows ++ row ∷ []))
        ≡ see_row route.id (subject_hash route) row (counters (state rows))
  unfolding see_rows
  named_step rows row e =
      counters-snoc rows row
      ∙ ap (λ l. see_rows route.id (subject_hash route) l (counters (state rows))) (kept row e)

  idle_step :
      (rows : List Row) (row : Row) (e : is_kind row ≡ false)
      → counters (state (rows ++ row ∷ [])) ≡ counters (state rows)
  unfolding see_rows
  idle_step rows row e =
      counters-snoc rows row
      ∙ ap (λ l. see_rows route.id (subject_hash route) l (counters (state rows))) (dropped row e)

  pub step-failure :
      (rows : List Row) (row : Row)
      → IsFailure route.id (subject_hash route) row
      → BreakerStep row (state rows) (state (rows ++ row ∷ []))
  step-failure rows row h =
      let e = named_step rows row (failure-kind row h.kind) ∙ see_failure _ _ row _ h in
      failure h (ap (λ p. p.0) e) (ap (λ p. p.1) e)

  pub step-success :
      (rows : List Row) (row : Row)
      → IsSuccess route.id (subject_hash route) row
      → BreakerStep row (state rows) (state (rows ++ row ∷ []))
  step-success rows row h =
      let e = named_step rows row (success-kind row h.kind) ∙ see_success _ _ row _ h in
      success h (ap (λ p. p.0) e) (ap (λ p. p.1) e)

  step-idle :
      (rows : List Row) (row : Row)
      → ¬ IsFailure route.id (subject_hash route) row
      → ¬ IsSuccess route.id (subject_hash route) row
      → counters (state (rows ++ row ∷ [])) ≡ counters (state rows)
      → BreakerStep row (state rows) (state (rows ++ row ∷ []))
  step-idle rows row nf ns e = other nf ns (ap (λ p. p.0) e) (ap (λ p. p.1) e)

  unnamed_step :
      (rows : List Row) (row : Row)
      → names_route route.id (subject_hash route) row.fact ≡ false
      → counters (state (rows ++ row ∷ [])) ≡ counters (state rows)
  unnamed_step rows row h = elim (Bool-cases (is_kind row)) [
    | inl e ↦ named_step rows row e ∙ see_other _ _ row _ h
    | inr e ↦ idle_step rows row e
  ]

  -- Each further record of the journal does to the breaker of a route what its kind and the route
  -- and subject that it names say, and nothing else.
  pub circuit_state-step :
      (rows : List Row) (row : Row) → BreakerStep row (state rows) (state (rows ++ row ∷ []))
  circuit_state-step rows row =
      elim (Bool-cases (names_route route.id (subject_hash route) row.fact)) [
        | inr unnamed ↦
            step-idle rows row (λ f. false≢true (sym unnamed ∙ f.named))
              (λ s. false≢true (sym unnamed ∙ s.named)) (unnamed_step rows row unnamed)
        | inl named ↦ elim (Bool-cases (row.kind == failed_kind)) [
          | inl f ↦ step-failure rows row (record { kind = (eq_iff _ _).0 f; named = named })
          | inr nf ↦ elim (Bool-cases (row.kind == succeeded_kind)) [
            | inl s ↦ step-success rows row (record { kind = (eq_iff _ _).0 s; named = named })
            | inr ns ↦
                let not_failed : row.kind ≢ failed_kind =
                  λ e. false≢true (sym nf ∙ (eq_iff _ _).1 e) in
                let not_succeeded : row.kind ≢ succeeded_kind =
                  λ e. false≢true (sym ns ∙ (eq_iff _ _).1 e) in
                step-idle rows row (λ h. not_failed h.kind) (λ h. not_succeeded h.kind)
                  (idle_step rows row (other-kind row not_failed not_succeeded))
          ]
        ]
      ]
