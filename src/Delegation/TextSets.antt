-- ===== src/Delegation/TextSets.antt =====
-- `sorted(set(…))` of texts.
use idol_id_agents.Prelude.{
  Text, Bool, true, false, ◌≡◌, refl, sym, ap, ◌∙◌, ◌||◌, List, [], ◌∷◌, All, ◌==◌, eq_refl, eq_iff,
  text_lt, text_lt_asym, text_lt_conn, not_text_lt_trans, Bool-cases, inl, inr, if◌then◌else◌,
  false≢true, arith,
}
use mathlib.Core.Path.{subst}
use idol_id_agents.Model.Atoms.{member}

-- Into a sorted list, unless it stands there.
unfoldable pub insert_once : Text → List Text → List Text
unfolding ◌==◌ text_lt
insert_once x [] = x ∷ []
insert_once x (y ∷ ys) =
    let later = insert_once x ys in
    if y == x then y ∷ ys else if text_lt x y then x ∷ (y ∷ ys) else y ∷ later

unfoldable pub sorted_set : List Text → List Text
unfolding insert_once
sorted_set [] = []
sorted_set (x ∷ xs) = insert_once x (sorted_set xs)

text_lt_irrefl : (s : Text) → text_lt s s ≡ false
text_lt_irrefl s = elim (Bool-cases (text_lt s s)) [ inl h ↦ text_lt_asym s s h | inr h ↦ h ]

text_lt_trans : (s t u : Text) → text_lt s t ≡ true → text_lt t u ≡ true → text_lt s u ≡ true
text_lt_trans s t u h k = elim (Bool-cases (text_lt s u)) [
  | inl e ↦ e
  | inr e ↦
      let same =
        text_lt_conn s u e (not_text_lt_trans s t u (text_lt_asym s t h) (text_lt_asym t u k)) in
      absurd (false≢true (sym (text_lt_asym s t h) ∙ subst (λ z. text_lt t z ≡ true) (sym same) k))
]

-- Each text before the next ones.
abbrev Ascending : List Text → Type 0
Ascending [] = Unit
Ascending (x ∷ xs) = All (λ y. text_lt x y ≡ true) xs × Ascending xs

All-trans :
    (x y : Text) (ys : List Text)
    → text_lt x y ≡ true
    → All (λ z. text_lt y z ≡ true) ys
    → All (λ z. text_lt x z ≡ true) ys
All-trans x y [] h all = tt
All-trans x y (z ∷ ys) h all = (text_lt_trans x y z h all.0, All-trans x y ys h all.1)

insert_once-All :
    (w x : Text) (ys : List Text)
    → text_lt w x ≡ true
    → All (λ z. text_lt w z ≡ true) ys
    → All (λ z. text_lt w z ≡ true) (insert_once x ys)
unfolding insert_once
insert_once-All w x [] h all = (h, tt)
insert_once-All w x (y ∷ ys) h all = elim (Bool-cases (y == x)) [
  | inl e ↦ rw e all
  | inr e ↦ elim (Bool-cases (text_lt x y)) [
    | inl f ↦ rw (e, f) (h, all)
    | inr f ↦ rw (e, f) (all.0, insert_once-All w x ys h all.1)
  ]
]

differs : (x y : Text) → (y == x) ≡ false → text_lt x y ≡ false → text_lt y x ≡ true
differs x y e f = elim (Bool-cases (text_lt y x)) [
  | inl h ↦ h
  | inr h ↦ absurd (false≢true (sym e ∙ (eq_iff y x).1 (text_lt_conn y x h f)))
]

insert_once-Ascending : (x : Text) (ys : List Text) → Ascending ys → Ascending (insert_once x ys)
unfolding insert_once
insert_once-Ascending x [] h = (tt, tt)
insert_once-Ascending x (y ∷ ys) h = elim (Bool-cases (y == x)) [
  | inl e ↦ rw e h
  | inr e ↦ elim (Bool-cases (text_lt x y)) [
    | inl f ↦ rw (e, f) ((f, All-trans x y ys f h.0), h)
    | inr f ↦
        rw (e, f) (insert_once-All y x ys (differs x y e f) h.0, insert_once-Ascending x ys h.1)
  ]
]

sorted_set-Ascending : (xs : List Text) → Ascending (sorted_set xs)
unfolding sorted_set
sorted_set-Ascending [] = tt
sorted_set-Ascending (x ∷ xs) = insert_once-Ascending x (sorted_set xs) (sorted_set-Ascending xs)

member-insert_once :
    (t x : Text) (ys : List Text) → member t (insert_once x ys) ≡ ((t == x) || member t ys)
unfolding insert_once member
member-insert_once t x [] = refl
member-insert_once t x (y ∷ ys) = elim (Bool-cases (y == x)) [
  | inl e ↦ rw (e, sym ((eq_iff y x).0 e)) ground arith
  | inr e ↦ elim (Bool-cases (text_lt x y)) [
    | inl f ↦ rw (e, f) refl
    | inr f ↦ rw (e, f, member-insert_once t x ys) ground arith
  ]
]

member-sorted_set : (t : Text) (xs : List Text) → member t (sorted_set xs) ≡ member t xs
unfolding sorted_set member
member-sorted_set t [] = refl
member-sorted_set t (x ∷ xs) =
    member-insert_once t x (sorted_set xs) ∙ ap (λ b. (t == x) || b) (member-sorted_set t xs)

not_member_above :
    (x : Text) (ys : List Text) → All (λ y. text_lt x y ≡ true) ys → member x ys ≡ false
unfolding member
not_member_above x [] h = refl
not_member_above x (y ∷ ys) h = elim (Bool-cases (x == y)) [
  | inl e ↦ absurd (
      false≢true
        (sym (text_lt_irrefl x) ∙ subst (λ z. text_lt x z ≡ true) (sym ((eq_iff x y).0 e)) h.0))
  | inr e ↦ rw e (not_member_above x ys h.1)
]

-- A text before the first of an ascending list is not in it.
not_member_below :
    (x y : Text) (ys : List Text)
    → text_lt x y ≡ true
    → Ascending (y ∷ ys)
    → member x (y ∷ ys) ≡ false
not_member_below x y ys h up = not_member_above x (y ∷ ys) (h, All-trans x y ys h up.0)

member-first : (x : Text) (xs : List Text) → member x (x ∷ xs) ≡ true
unfolding member
member-first x xs = rw (eq_refl x) refl

first_member :
    (x y : Text) (xs ys : List Text)
    → Ascending (y ∷ ys)
    → member x (x ∷ xs) ≡ member x (y ∷ ys)
    → text_lt x y ≡ false
first_member x y xs ys up same = elim (Bool-cases (text_lt x y)) [
  | inl h ↦ absurd (false≢true (sym (not_member_below x y ys h up) ∙ sym same ∙ member-first x xs))
  | inr h ↦ h
]

rest_members :
    (x : Text) (xs ys : List Text)
    → Ascending (x ∷ xs)
    → Ascending (x ∷ ys)
    → (t : Text) → member t (x ∷ xs) ≡ member t (x ∷ ys)
    → member t xs ≡ member t ys
unfolding member
rest_members x xs ys h k t same = elim (Bool-cases (t == x)) [
  | inl e ↦
      subst (λ z. member z xs ≡ member z ys) (sym ((eq_iff t x).0 e))
        (not_member_above x xs h.0 ∙ sym (not_member_above x ys k.0))
  | inr e ↦ not_first (t == x) _ _ e same
]
  where
    not_first : (b c d : Bool) → b ≡ false → (b || c) ≡ (b || d) → c ≡ d
    not_first b c d e f = ground arith

-- Two ascending lists with the same members are one list.
Ascending-unique :
    (xs ys : List Text)
    → Ascending xs
    → Ascending ys
    → ((t : Text) → member t xs ≡ member t ys)
    → xs ≡ ys
unfolding member
Ascending-unique [] [] h k same = refl
Ascending-unique [] (y ∷ ys) h k same = absurd (false≢true (same y ∙ member-first y ys))
Ascending-unique (x ∷ xs) [] h k same = absurd (false≢true (sym (same x) ∙ member-first x xs))
Ascending-unique (x ∷ xs) (y ∷ ys) h k same =
    let head : x ≡ y =
      text_lt_conn x y (first_member x y xs ys k (same x))
        (first_member y x ys xs h (sym (same y))) in
    let up = subst (λ z. Ascending (z ∷ ys)) (sym head) k in
    let all = subst (λ z. (t : Text) → member t (x ∷ xs) ≡ member t (z ∷ ys)) (sym head) same in
    ap (λ z. z ∷ xs) head
    ∙ ap (λ l. y ∷ l) (Ascending-unique xs ys h.1 k.1 (λ t. rest_members x xs ys h up t (all t)))

-- The sorted set of a sequence is told by its members.
pub sorted_set_unique :
    (xs ys : List Text) → ((t : Text) → member t xs ≡ member t ys) → sorted_set xs ≡ sorted_set ys
sorted_set_unique xs ys same =
    Ascending-unique (sorted_set xs) (sorted_set ys) (sorted_set-Ascending xs)
      (sorted_set-Ascending ys)
      (λ t. member-sorted_set t xs ∙ same t ∙ sym (member-sorted_set t ys))
