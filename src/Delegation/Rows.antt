-- ===== src/Delegation/Rows.antt =====
-- The searches of a journal behind a further row.
use idol_id_agents.Prelude.{
  ℕ, Text, Bool, true, false, ◌≡◌, refl, ◌∙◌, ◌&&◌, List, [], ◌∷◌, ◌++◌, ◌==◌, eq_refl, Option,
  none, some, Fields, Bool-cases, inl, inr, if◌then◌else◌,
}
use idol_id_agents.Journal.{Row, Codec, next_row}
use idol_id_agents.Delegation.{wanted_row, last_match, last_row, carries, add_row}
use idol_id_agents.Delegation.Delegate.{delegation_row, delegated}

if_none :
    (b : Bool) (x : Row) (o : Option Row)
    → (if b then some x else o) ≡ none
    → (b ≡ false) × (o ≡ none)
if_none true x o h = cc
if_none false x o h = (refl, h)

last_match-append :
    (p : Row → Bool) (rows : List Row) (r : Row)
    → last_match p (rows ++ r ∷ []) ≡ (if p r then some r else last_match p rows)
unfolding last_match
last_match-append p [] r = refl
last_match-append p (x ∷ rows) r = elim (Bool-cases (p r)) [
  | inl e ↦ rw (last_match-append p rows r, e) refl
  | inr e ↦ rw (last_match-append p rows r, e) refl
]

-- A row of another kind does not change what a search finds.
pub last_row-add_other :
    (c : Codec) (kind : Text) (wanted : List (Text × Text)) (other : Text) (fact : Fields) (now : ℕ)
    (rows : List Row)
    → (other == kind) ≡ false
    → last_row kind wanted (add_row c other fact now rows) ≡ last_row kind wanted rows
unfolding last_row wanted_row
last_row-add_other c kind wanted other fact now rows h =
    last_match-append (wanted_row kind wanted) rows (next_row c rows other fact now) ∙ rw h refl

-- A row of the kind that carries what is wanted is what a search finds.
pub last_row-add_wanted :
    (c : Codec) (kind : Text) (wanted : List (Text × Text)) (fact : Fields) (now : ℕ)
    (rows : List Row)
    → carries wanted (some fact) ≡ true
    → last_row kind wanted (add_row c kind fact now rows) ≡ some (next_row c rows kind fact now)
unfolding last_row wanted_row
last_row-add_wanted c kind wanted fact now rows h =
    last_match-append (wanted_row kind wanted) rows (next_row c rows kind fact now)
    ∙ rw (eq_refl kind, h) refl

-- A delegation under a hash that no delegation has is found by its hash.
pub delegation_row-append :
    (r : Row) (rows : List Row)
    → r.kind ≡ delegated
    → delegation_row r.hash rows ≡ none
    → delegation_row r.hash (rows ++ r ∷ []) ≡ some r
unfolding delegation_row
delegation_row-append r [] k h = rw (k, eq_refl r.hash) refl
delegation_row-append r (x ∷ rows) k h =
    let (passed, rest) =
      if_none ((x.kind == delegated) && (x.hash == r.hash)) x (delegation_row r.hash rows) h in
    rw (passed, delegation_row-append r rows k rest) refl
