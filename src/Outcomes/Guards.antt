-- ===== src/Outcomes/Guards.antt =====
-- What a test of `record_outcome` that passes says of the values it reads.
use mathlib.Core.Path.{subst}
use idol_id_agents.Prelude.{
  Text, text, Bool, true, false, ◌≡◌, ◌≢◌, refl, sym, ap, ◌∙◌, Option, none, some, Json, Fields,
  null, bool, num, str, arr, obj, nil, cons, get, is_text, ok, refuse_if, not, ◌&&◌, and_true, List,
  [], ◌∷◌, all, Any, inl, inr, Bool-cases, ◌==◌, eq_iff, false≢true, some-injective, if◌then◌else◌,
}
use idol_id_agents.Model.Atoms.{is_sha}
use idol_id_agents.Outcomes.Receipts.{OutcomeReceipt, is_admitted, OutcomeRefusal}
use idol_id_agents.Outcomes.{
  has_text, is_value, require, is_some, is_true, is_no_items, same_text, exact_base,
  families_differ, only_reviewer,
}

pub require-ok :
    {A : Type 0} (found : Option A) (e : OutcomeRefusal) {a : A}
    → require found e ≡ ok a
    → found ≡ some a
require-ok none e h = cc
require-ok (some b) e h = cc

pub not_some : {A : Type 0} (found : Option A) → is_some found ≡ false → found ≡ none
not_some none h = refl
not_some (some a) h = cc

pub not-not : (b : Bool) → not b ≡ false → b ≡ true
not-not true h = refl
not-not false h = cc

pub unless : (a b : Bool) → (a && not b) ≡ false → a ≡ true → b ≡ true
unless true true h e = refl
unless true false h e = cc
unless false b h e = cc

pub never : (a b : Bool) → (a && b) ≡ false → a ≡ true → b ≡ false
never true b h e = h
never false b h e = cc

pub rest_of : (a b : Bool) → (not a && b) ≡ false → a ≡ false → b ≡ false
rest_of true b h e = cc
rest_of false b h e = h

pub passes : (test : Bool) (e : OutcomeRefusal) → refuse_if test e ≡ ok tt → test ≡ false
passes true e h = cc
passes false e h = refl

pub same_text-some : (found : Option Text) (t : Text) → same_text found t ≡ true → found ≡ some t
same_text-some none t h = absurd (false≢true h)
same_text-some (some s) t h = ap some ((eq_iff s t).0 h)

pub is_true-some : (found : Option Json) → is_true found ≡ true → found ≡ some (bool true)
unfolding is_true
is_true-some none h = absurd (false≢true h)
is_true-some (some (bool true)) h = refl
is_true-some (some (bool false)) h = absurd (false≢true h)
is_true-some (some null) h = absurd (false≢true h)
is_true-some (some (num n)) h = absurd (false≢true h)
is_true-some (some (str t)) h = absurd (false≢true h)
is_true-some (some (arr i)) h = absurd (false≢true h)
is_true-some (some (obj fs)) h = absurd (false≢true h)

pub is_no_items-some : (found : Option Json) → is_no_items found ≡ true → found ≡ some (arr nil)
unfolding is_no_items
is_no_items-some none h = absurd (false≢true h)
is_no_items-some (some (arr nil)) h = refl
is_no_items-some (some (arr (cons v i))) h = absurd (false≢true h)
is_no_items-some (some (bool b)) h = absurd (false≢true h)
is_no_items-some (some null) h = absurd (false≢true h)
is_no_items-some (some (num n)) h = absurd (false≢true h)
is_no_items-some (some (str t)) h = absurd (false≢true h)
is_no_items-some (some (obj fs)) h = absurd (false≢true h)

abbrev is_exact : Fields → Text → Bool
is_exact ready s =
    is_sha s && is_text (get ready (text "base_sha")) s && is_text (get ready (text "commit")) s

pub chosen :
    (ready : Fields) (s : Text) (b : Bool)
    → is_exact ready s ≡ b
    → exact_base ready (some (str s)) ≡ (if b then some s else none)
chosen ready s b h = rw h refl

-- A base that was found exact.
pub exact_base-some :
    (ready : Fields) (found : Option Json) {base : Text}
    → exact_base ready found ≡ some base
    → (found ≡ some (str base))
      × (is_sha base ≡ true)
      × (is_text (get ready (text "base_sha")) base ≡ true)
      × (is_text (get ready (text "commit")) base ≡ true)
exact_base-some ready none h = cc
exact_base-some ready (some (str s)) {base} h = elim (Bool-cases (is_exact ready s)) [
  | inl e ↦
      let same : s ≡ base = some-injective (sym (chosen ready s true e) ∙ h) in
      let (two, commit) = and_true _ (is_text (get ready (text "commit")) s) e in
      let (exact, of_base) = and_true (is_sha s) (is_text (get ready (text "base_sha")) s) two in
      subst
        (λ t.
          (◌≡◌ {A = Option Json} (some (str s)) (some (str t)))
          × (is_sha t ≡ true)
          × (is_text (get ready (text "base_sha")) t ≡ true)
          × (is_text (get ready (text "commit")) t ≡ true))
        same (refl, exact, of_base, commit)
  | inr e ↦ let nothing = sym (chosen ready s false e) ∙ h in cc
]
exact_base-some ready (some null) h = cc
exact_base-some ready (some (bool b)) h = cc
exact_base-some ready (some (num n)) h = cc
exact_base-some ready (some (arr i)) h = cc
exact_base-some ready (some (obj fs)) h = cc

pub families_differ-same :
    (found configured : Option Text) (a b : Text)
    → families_differ found configured ≡ false
    → found ≡ some a
    → configured ≡ some b
    → a ≡ b
families_differ-same none configured a b h e k = cc
families_differ-same (some s) none a b h e k = cc
families_differ-same (some s) (some t) a b h e k =
    sym (some-injective e) ∙ (eq_iff s t).0 (not-not _ h) ∙ some-injective k

pub not-all :
    (family : Text) (names : List Text)
    → all (λ f. f == family) names ≡ false
    → Any (λ f. f ≢ family) names
not-all family [] h = absurd (false≢true (sym h))
not-all family (f ∷ rest) h = elim (Bool-cases (f == family)) [
  | inr other ↦ inl (λ e. false≢true (sym other ∙ (eq_iff f family).1 e))
  | inl same ↦ inr (not-all family rest (sym (rw same refl) ∙ h))
]

-- Where not all reviewers are of the family, one is of another.
pub only_reviewer-other :
    (found : Option Text) (names : List Text) (family : Text)
    → only_reviewer found names ≡ false
    → found ≡ some family
    → Any (λ f. f ≢ family) names
only_reviewer-other none names family h e = cc
only_reviewer-other (some s) names family h e =
    subst (λ t. Any (λ f. f ≢ t) names) (some-injective e) (not-all s names h)

pub is_text-some : (found : Option Json) (t : Text) → is_text found t ≡ true → found ≡ some (str t)
is_text-some none t h = absurd (false≢true h)
is_text-some (some (str s)) t h = ap (λ u. some (str u)) ((eq_iff s t).0 h)
is_text-some (some null) t h = absurd (false≢true h)
is_text-some (some (bool b)) t h = absurd (false≢true h)
is_text-some (some (num n)) t h = absurd (false≢true h)
is_text-some (some (arr i)) t h = absurd (false≢true h)
is_text-some (some (obj fs)) t h = absurd (false≢true h)

pub has_text-some :
    (found : Option Fields) (key t : Text)
    → has_text found key t ≡ true
    → (fact : Fields) × (found ≡ some fact) × (get fact key ≡ some (str t))
has_text-some none key t h = absurd (false≢true h)
has_text-some (some fact) key t h = (fact, refl, is_text-some (get fact key) t h)

pub is_value-some :
    (found : Option Json) (expected : Option Text) {t : Text}
    → is_value found expected ≡ true
    → expected ≡ some t
    → found ≡ some (str t)
unfolding is_value
is_value-some found none h e = cc
is_value-some found (some s) h e =
    is_text-some found s h ∙ ap (λ u. some (str u)) (some-injective e)

pub admitted_lem : (r : OutcomeReceipt) → r.verdict ≡ text "admitted" → is_admitted r ≡ true
unfolding is_admitted
admitted_lem r h = (eq_iff r.verdict (text "admitted")).1 h

pub not_admitted : (r : OutcomeReceipt) → r.verdict ≢ text "admitted" → is_admitted r ≡ false
unfolding is_admitted
not_admitted r h = elim (Bool-cases (r.verdict == text "admitted")) [
  | inl e ↦ absurd (h ((eq_iff r.verdict (text "admitted")).0 e))
  | inr e ↦ e
]
