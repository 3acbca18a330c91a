-- ===== src/Outcomes/Latest.antt =====
-- What the loop of `record_outcome` over the journal has seen, told of the rows.
use idol_id_agents.Prelude.{
  is_falsy, some-injective, Text, text, if◌then◌else◌, Bool, true, false, ◌≡◌, refl, sym, ap, ◌∙◌,
  ◌&&◌, List, [], ◌∷◌, All, Option, none, some, Json, Fields, obj, get, is_text, ◌==◌, eq_iff, ◌⊎◌,
  inl, inr, Bool-cases, null, bool, num, str, arr, false≢true, and_true, and_false,
}
use mathlib.Core.Path.{subst}
use idol_id_agents.Model.Atoms.{member}
use idol_id_agents.Journal.{Row}
use idol_id_agents.Outcomes.{
  if_filled, Seen, nothing_seen, terminal_kinds, family_of, see_kind, see_event, see_events,
}

-- The row has a fact of the attempt.
abbrev pub names : Text → Json → Bool
names id (obj fact) = is_text (get fact (text "attempt_id")) id
names id _ = false

-- A row of the kind on the attempt.
abbrev pub is_on : Text → Text → Row → Bool
is_on id kind row = (row.kind == kind) && names id row.fact

-- A verdict on the attempt.
abbrev pub closes : Text → Row → Bool
closes id row = member row.kind terminal_kinds && names id row.fact

-- The last row that the test takes has the fact.
abbrev pub IsLast : (Row → Bool) → List Row → Fields → Type 0
IsLast p [] fact = ⊥
IsLast p (row ∷ rest) fact =
    IsLast p rest fact
    ⊎ ((p row ≡ true) × (row.fact ≡ obj fact) × All (λ later. p later ≡ false) rest)

module _ (str_of : Json → Text) where
  -- What a row does to a variable of the loop that rows of one kind on the attempt set.
  module _ {A : Type 0} (id : Text) (pick : Seen → A) (value : Fields → A) (p : Row → Bool)
      (taken : (row : Row) (s : Seen)
        → p row ≡ true
        → (fact : Fields) × (row.fact ≡ obj fact)
          × (pick (see_event str_of id row.kind row.fact s) ≡ value fact))
      (left : (row : Row) (s : Seen)
        → p row ≡ false
        → pick (see_event str_of id row.kind row.fact s) ≡ pick s) where
    -- The variable holds the value of the last row that sets it, or what it has held.
    pub see_events-IsLast :
        (rows : List Row) (s : Seen)
        → (All (λ row. p row ≡ false) rows × (pick (see_events str_of id rows s) ≡ pick s))
          ⊎ ((fact : Fields) × IsLast p rows fact
              × (pick (see_events str_of id rows s) ≡ value fact))
    unfolding see_events
    see_events-IsLast [] s = inl (tt, refl)
    see_events-IsLast (row ∷ rest) s =
        elim (see_events-IsLast rest (see_event str_of id row.kind row.fact s)) [
          | inr (fact, last, same) ↦ inr (fact, inl last, same)
          | inl (none_later, same) ↦ elim (Bool-cases (p row)) [
            | inl sets ↦
                let (fact, carried, set) = taken row s sets in
                inr (fact, inr (sets, carried, none_later), same ∙ set)
            | inr skips ↦ inl ((skips, none_later), same ∙ left row s skips)
          ]
        ]

pub if-pick :
    {A : Type 0} (pick : Seen → A) (a : A) (b : Bool) (x y : Seen)
    → (b ≡ true → pick x ≡ a)
    → (b ≡ false → pick y ≡ a)
    → pick (if b then x else y) ≡ a
if-pick pick a true x y f g = f refl
if-pick pick a false x y f g = g refl

pub clash : {P : Type 0} {b : Bool} → b ≡ true → b ≡ false → P
clash h k = absurd (false≢true (sym k ∙ h))

module _ (str_of : Json → Text) (id : Text) where
  pub see_event-named :
      (kind : Text) (fact : Json) (s : Seen)
      → names id fact ≡ true
      → (fs : Fields) × (fact ≡ obj fs)
        × (see_event str_of id kind fact s ≡ see_kind str_of kind fs s)
  unfolding see_event
  see_event-named kind (obj fs) s h = (fs, refl, rw h refl)
  see_event-named kind null s h = absurd (false≢true h)
  see_event-named kind (bool b) s h = absurd (false≢true h)
  see_event-named kind (num n) s h = absurd (false≢true h)
  see_event-named kind (str t) s h = absurd (false≢true h)
  see_event-named kind (arr i) s h = absurd (false≢true h)

  pub see_event-unnamed :
      (kind : Text) (fact : Json) (s : Seen)
      → names id fact ≡ false
      → see_event str_of id kind fact s ≡ s
  unfolding see_event
  see_event-unnamed kind (obj fs) s h = rw h refl
  see_event-unnamed kind null s h = refl
  see_event-unnamed kind (bool b) s h = refl
  see_event-unnamed kind (num n) s h = refl
  see_event-unnamed kind (str t) s h = refl
  see_event-unnamed kind (arr i) s h = refl

  module _ {A : Type 0} (pick : Seen → A) (value : Fields → A) (kind : Text)
      (sets : (fs : Fields) (s : Seen) → pick (see_kind str_of kind fs s) ≡ value fs)
      (keeps : (other : Text) (fs : Fields) (s : Seen)
        → (other == kind) ≡ false
        → pick (see_kind str_of other fs s) ≡ pick s) where
    is_on-taken :
        (row : Row) (s : Seen)
        → is_on id kind row ≡ true
        → (fact : Fields) × (row.fact ≡ obj fact)
          × (pick (see_event str_of id row.kind row.fact s) ≡ value fact)
    is_on-taken row s h =
        let (of_kind, named) = and_true (row.kind == kind) (names id row.fact) h in
        let (fs, carried, seen) = see_event-named row.kind row.fact s named in
        (
          fs,
          carried,
          ap pick seen
              ∙ ap (λ k. pick (see_kind str_of k fs s)) ((eq_iff row.kind kind).0 of_kind)
              ∙ sets fs s,
        )

    is_on-left :
        (row : Row) (s : Seen)
        → is_on id kind row ≡ false
        → pick (see_event str_of id row.kind row.fact s) ≡ pick s
    is_on-left row s h = elim (Bool-cases (names id row.fact)) [
      | inr unnamed ↦ ap pick (see_event-unnamed row.kind row.fact s unnamed)
      | inl named ↦
          let (fs, carried, seen) = see_event-named row.kind row.fact s named in
          ap pick seen
          ∙ keeps row.kind fs s (elim (and_false (row.kind == kind) (names id row.fact) h) [
            | inl other ↦ other
            | inr unnamed ↦ clash named unnamed
          ])
    ]

    -- The variable holds the value of the last row of the kind on the attempt, if there is one.
    is_on-IsLast :
        (rows : List Row) (s : Seen)
        → (All (λ row. is_on id kind row ≡ false) rows
            × (pick (see_events str_of id rows s) ≡ pick s))
          ⊎ ((fact : Fields) × IsLast (is_on id kind) rows fact
              × (pick (see_events str_of id rows s) ≡ value fact))
    is_on-IsLast = see_events-IsLast str_of id pick value (is_on id kind) is_on-taken is_on-left

  attempt-keeps :
      (kind : Text) (fs : Fields) (s : Seen)
      → (kind == text "attempt.started") ≡ false
      → (see_kind str_of kind fs s).attempt ≡ s.attempt
  unfolding see_kind
  attempt-keeps kind fs s h =
      if-pick (λ t. t.attempt) s.attempt (kind == text "attempt.started") _ _ (λ e. clash e h)
        (λ n.
          if-pick (λ t. t.attempt) s.attempt (kind == text "attempt.ready") _ _ (λ e. refl)
            (λ n.
              if-pick (λ t. t.attempt) s.attempt (kind == text "attempt.executed") _ _ (λ e. refl)
                (λ n.
                  if-pick (λ t. t.attempt) s.attempt (member kind terminal_kinds) _ _ (λ e. refl)
                    (λ n. refl))))

  ready-keeps :
      (kind : Text) (fs : Fields) (s : Seen)
      → (kind == text "attempt.ready") ≡ false
      → (see_kind str_of kind fs s).ready ≡ s.ready
  unfolding see_kind
  ready-keeps kind fs s h =
      if-pick (λ t. t.ready) s.ready (kind == text "attempt.started") _ _ (λ e. refl)
        (λ n.
          if-pick (λ t. t.ready) s.ready (kind == text "attempt.ready") _ _ (λ e. clash e h)
            (λ n.
              if-pick (λ t. t.ready) s.ready (kind == text "attempt.executed") _ _ (λ e. refl)
                (λ n.
                  if-pick (λ t. t.ready) s.ready (member kind terminal_kinds) _ _ (λ e. refl)
                    (λ n. refl))))

  -- What the last executed row says, and the family in it.
  abbrev execution : Seen → Option Fields × Option Text
  execution s = (s.executed, s.family)

  executed-keeps :
      (kind : Text) (fs : Fields) (s : Seen)
      → (kind == text "attempt.executed") ≡ false
      → execution (see_kind str_of kind fs s) ≡ execution s
  unfolding see_kind
  executed-keeps kind fs s h =
      if-pick execution (execution s) (kind == text "attempt.started") _ _ (λ e. refl)
        (λ n.
          if-pick execution (execution s) (kind == text "attempt.ready") _ _ (λ e. refl)
            (λ n.
              if-pick execution (execution s) (kind == text "attempt.executed") _ _ (λ e. clash e h)
                (λ n.
                  if-pick execution (execution s) (member kind terminal_kinds) _ _ (λ e. refl)
                    (λ n. refl))))

  attempt-sets :
      (fs : Fields) (s : Seen) → (see_kind str_of (text "attempt.started") fs s).attempt ≡ some fs
  unfolding see_kind
  attempt-sets fs s = refl

  ready-sets :
      (fs : Fields) (s : Seen) → (see_kind str_of (text "attempt.ready") fs s).ready ≡ some fs
  unfolding see_kind
  ready-sets fs s = refl

  abbrev execution_of : Fields → Option Fields × Option Text
  execution_of fs = (some fs, family_of str_of (get fs (text "provider_family")))

  executed-sets :
      (fs : Fields) (s : Seen)
      → execution (see_kind str_of (text "attempt.executed") fs s) ≡ execution_of fs
  unfolding see_kind
  executed-sets fs s = refl

  IsLast-found :
      (p : Row → Bool) (rows : List Row) (found : Option Fields) {fact : Fields}
      → (All (λ row. p row ≡ false) rows × (found ≡ none))
        ⊎ ((g : Fields) × IsLast p rows g × (found ≡ some g))
      → found ≡ some fact
      → IsLast p rows fact
  IsLast-found p rows found (inl (nowhere, same)) h = cc
  IsLast-found p rows found (inr (g, last, same)) h =
      subst (IsLast p rows) (some-injective (sym same ∙ h)) last

  -- The variables of the loop behind a journal, told of its rows.
  pub started-IsLast :
      (rows : List Row) {fact : Fields}
      → (see_events str_of id rows nothing_seen).attempt ≡ some fact
      → IsLast (is_on id (text "attempt.started")) rows fact
  started-IsLast rows = IsLast-found _ rows _ (
      is_on-IsLast (λ s. s.attempt) some (text "attempt.started") attempt-sets attempt-keeps rows
        nothing_seen)

  pub ready-IsLast :
      (rows : List Row) {fact : Fields}
      → (see_events str_of id rows nothing_seen).ready ≡ some fact
      → IsLast (is_on id (text "attempt.ready")) rows fact
  ready-IsLast rows = IsLast-found _ rows _ (
      is_on-IsLast (λ s. s.ready) some (text "attempt.ready") ready-sets ready-keeps rows
        nothing_seen)

  -- The family of an execution, from the value that its fact has for it.
  pub IsFamily : Option Json → Option Text → Type 0
  IsFamily none family = family ≡ none
  IsFamily (some null) family = family ≡ none
  IsFamily (some (str [])) family = family ≡ none
  IsFamily (some (str (x ∷ t))) family = family ≡ some (x ∷ t)
  IsFamily (some v) family = (family ≡ none) ⊎ (family ≡ some (str_of v))

  filled-IsFamily :
      (t : Text) (empty : Bool)
      → ((if empty then none else if_filled (some t)) ≡ none)
        ⊎ ((if empty then none else if_filled (some t)) ≡ some t)
  filled-IsFamily t true = inl refl
  filled-IsFamily [] false = inl refl
  filled-IsFamily (x ∷ t) false = inr refl

  family_of-IsFamily : (found : Option Json) → IsFamily found (family_of str_of found)
  unfolding family_of IsFamily is_falsy
  family_of-IsFamily none = refl
  family_of-IsFamily (some null) = refl
  family_of-IsFamily (some (str [])) = refl
  family_of-IsFamily (some (str (x ∷ t))) = refl
  family_of-IsFamily (some (bool b)) = filled-IsFamily (str_of (bool b)) (is_falsy (bool b))
  family_of-IsFamily (some (num n)) = filled-IsFamily (str_of (num n)) (is_falsy (num n))
  family_of-IsFamily (some (arr i)) = filled-IsFamily (str_of (arr i)) (is_falsy (arr i))
  family_of-IsFamily (some (obj fs)) = filled-IsFamily (str_of (obj fs)) (is_falsy (obj fs))

  -- The attempt was not executed, and nothing is known of its execution, or its last execution has the
  -- fact, and is of the family that the fact names.
  abbrev pub IsExecuted : List Row → Option Fields → Option Text → Type 0
  IsExecuted rows found family =
      (All (λ row. is_on id (text "attempt.executed") row ≡ false) rows
        × (found ≡ none)
        × (family ≡ none))
      ⊎ ((fact : Fields) × IsLast (is_on id (text "attempt.executed")) rows fact
          × (found ≡ some fact)
          × IsFamily (get fact (text "provider_family")) family)

  pub executed-IsExecuted :
      (rows : List Row)
      → IsExecuted rows
          (see_events str_of id rows nothing_seen).executed
          (see_events str_of id rows nothing_seen).family
  executed-IsExecuted rows =
      elim (is_on-IsLast execution execution_of (text "attempt.executed") executed-sets
        executed-keeps rows nothing_seen) [
          | inl (nowhere, same) ↦ inl (nowhere, ap (λ e. e.0) same, ap (λ e. e.1) same)
          | inr (fact, last, same) ↦ inr (
            fact,
            last,
            ap (λ e. e.0) same,
            subst (IsFamily (get fact (text "provider_family"))) (sym (ap (λ e. e.1) same))
                (family_of-IsFamily (get fact (text "provider_family"))),
          )
        ]
