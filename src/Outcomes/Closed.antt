-- ===== src/Outcomes/Closed.antt =====
-- A verdict that the loop of `record_outcome` over the journal meets is kept to its end.
use idol_id_agents.Prelude.{
  inl, inr, Text, text, Bool, true, false, ◌≡◌, refl, ap, ◌∙◌, List, [], ◌∷◌, All, none, Json,
  Fields, ◌==◌, eq_iff, Bool-cases, and_true,
}
use mathlib.Core.Path.{subst}
use idol_id_agents.Model.Atoms.{member}
use idol_id_agents.Journal.{Row}
use idol_id_agents.Outcomes.{Seen, terminal_kinds, is_some, see_kind, see_event, see_events}
use idol_id_agents.Outcomes.Latest.{
  closes, names, if-pick, clash, see_event-named, see_event-unnamed,
}

module _ (str_of : Json → Text) (id : Text) where
  not_terminal :
      (kind other : Text)
      → member kind terminal_kinds ≡ true
      → member other terminal_kinds ≡ false
      → (kind == other) ≡ true
      → ⊥
  not_terminal kind other h k e =
      clash (subst (λ t. member t terminal_kinds ≡ true) ((eq_iff kind other).0 e) h) k

  abbrev has_verdict : Seen → Bool
  has_verdict s = is_some s.verdict

  verdict-sets :
      (kind : Text) (fs : Fields) (s : Seen)
      → member kind terminal_kinds ≡ true
      → has_verdict (see_kind str_of kind fs s) ≡ true
  unfolding see_kind member ◌==◌
  verdict-sets kind fs s h =
      if-pick has_verdict true (kind == text "attempt.started") _ _
        (λ e. absurd (not_terminal kind (text "attempt.started") h refl e))
        (λ n.
          if-pick has_verdict true (kind == text "attempt.ready") _ _
            (λ e. absurd (not_terminal kind (text "attempt.ready") h refl e))
            (λ n.
              if-pick has_verdict true (kind == text "attempt.executed") _ _
                (λ e. absurd (not_terminal kind (text "attempt.executed") h refl e))
                (λ n.
                  if-pick has_verdict true (member kind terminal_kinds) _ _ (λ e. refl)
                    (λ n. clash h n))))

  verdict-stays :
      (kind : Text) (fs : Fields) (s : Seen)
      → has_verdict s ≡ true
      → has_verdict (see_kind str_of kind fs s) ≡ true
  unfolding see_kind
  verdict-stays kind fs s h =
      if-pick has_verdict true (kind == text "attempt.started") _ _ (λ e. h)
        (λ n.
          if-pick has_verdict true (kind == text "attempt.ready") _ _ (λ e. h)
            (λ n.
              if-pick has_verdict true (kind == text "attempt.executed") _ _ (λ e. h)
                (λ n.
                  if-pick has_verdict true (member kind terminal_kinds) _ _ (λ e. refl) (λ n. h))))

  -- A verdict that was seen stays seen.
  see_event-stays :
      (row : Row) (s : Seen)
      → has_verdict s ≡ true
      → has_verdict (see_event str_of id row.kind row.fact s) ≡ true
  see_event-stays row s h = elim (Bool-cases (names id row.fact)) [
    | inr unnamed ↦ ap has_verdict (see_event-unnamed str_of id row.kind row.fact s unnamed) ∙ h
    | inl named ↦
        let (fs, carried, seen) = see_event-named str_of id row.kind row.fact s named in
        ap has_verdict seen ∙ verdict-stays row.kind fs s h
  ]

  see_events-stays :
      (rows : List Row) (s : Seen)
      → has_verdict s ≡ true
      → has_verdict (see_events str_of id rows s) ≡ true
  unfolding see_events
  see_events-stays [] s h = h
  see_events-stays (row ∷ rest) s h = see_events-stays rest _ (see_event-stays row s h)

  see_event-closes :
      (row : Row) (s : Seen)
      → closes id row ≡ true
      → has_verdict (see_event str_of id row.kind row.fact s) ≡ true
  see_event-closes row s h =
      let (terminal, named) = and_true (member row.kind terminal_kinds) (names id row.fact) h in
      let (fs, carried, seen) = see_event-named str_of id row.kind row.fact s named in
      ap has_verdict seen ∙ verdict-sets row.kind fs s terminal

  -- Where the loop has seen no verdict, no row is a verdict on the attempt.
  pub see_events-open :
      (rows : List Row) (s : Seen)
      → (see_events str_of id rows s).verdict ≡ none
      → All (λ row. closes id row ≡ false) rows
  unfolding see_events
  see_events-open [] s h = tt
  see_events-open (row ∷ rest) s h = elim (Bool-cases (closes id row)) [
    | inr open_row ↦ (open_row, see_events-open rest _ h)
    | inl closing ↦ clash (see_events-stays rest _ (see_event-closes row s closing)) (ap is_some h)
  ]
