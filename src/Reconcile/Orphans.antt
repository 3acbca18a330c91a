-- ===== src/Reconcile/Orphans.antt =====
-- The dictionary of the latest attempts, and what a cancellation does to it.
use idol_id_agents.Prelude.{
  false≢true, ℕ, Text, text, Bool, true, false, ◌≡◌, ◌≢◌, refl, sym, ap, ◌∙◌, List, [], ◌∷◌, ◌++◌,
  ◌==◌, eq_iff, Bool-cases, inl, inr, All, All-map, Any, Pairwise, keep, keep-append, any, Json,
  Fields, obj, str, get, Option, none, some,
}
use idol_id_agents.Journal.{Row, events}
use idol_id_agents.Reconcile.{
  Latest, cancelled, put, see_named, see_fact, see_attempts, is_orphan, cancellation, attempt_kinds,
  latest_of,
}

-- The order ids of the dictionary differ.
abbrev pub IsKeyed : List Latest → Type 0
IsKeyed = Pairwise (λ a b. a.order_id ≢ b.order_id)

put-other :
    (id : Text) (e : Latest) (l : List Latest)
    → id ≢ e.order_id
    → All (λ x. id ≢ x.order_id) l
    → All (λ x. id ≢ x.order_id) (put e l)
unfolding put
put-other id e [] h k = (h, tt)
put-other id e (x ∷ rest) h k = elim (Bool-cases (x.order_id == e.order_id)) [
  | inl same ↦ rw same (h, k.1)
  | inr other ↦ rw other (k.0, put-other id e rest h k.1)
]

pub put-IsKeyed : (e : Latest) (l : List Latest) → IsKeyed l → IsKeyed (put e l)
unfolding put
put-IsKeyed e [] h = (tt, tt)
put-IsKeyed e (x ∷ rest) h = elim (Bool-cases (x.order_id == e.order_id)) [
  | inl same ↦
      let key : x.order_id ≡ e.order_id = (eq_iff _ _).0 same in
      rw same (All-map (λ y apart p. apart (key ∙ p)) rest h.0, h.1)
  | inr other ↦
      let key : x.order_id ≢ e.order_id = λ p. false≢true (sym other ∙ (eq_iff _ _).1 p) in
      rw other (put-other x.order_id e rest key h.0, put-IsKeyed e rest h.1)
]

see_named-IsKeyed :
    (row : Row) (fact : Fields) (found : Option Json) (l : List Latest)
    → IsKeyed l
    → IsKeyed (see_named row fact found l)
unfolding see_named
see_named-IsKeyed row fact (some (str id)) l h = put-IsKeyed _ l h
see_named-IsKeyed row fact none l h = h
see_named-IsKeyed row fact (some Json.null) l h = h
see_named-IsKeyed row fact (some (Json.bool b)) l h = h
see_named-IsKeyed row fact (some (Json.num n)) l h = h
see_named-IsKeyed row fact (some (Json.arr xs)) l h = h
see_named-IsKeyed row fact (some (obj fs)) l h = h

see_fact-IsKeyed :
    (row : Row) (fact : Json) (l : List Latest) → IsKeyed l → IsKeyed (see_fact row fact l)
unfolding see_fact
see_fact-IsKeyed row (obj fact) l h = see_named-IsKeyed row fact (get fact (text "order_id")) l h
see_fact-IsKeyed row Json.null l h = h
see_fact-IsKeyed row (Json.bool b) l h = h
see_fact-IsKeyed row (Json.num n) l h = h
see_fact-IsKeyed row (str t) l h = h
see_fact-IsKeyed row (Json.arr xs) l h = h

pub see_attempts-IsKeyed :
    (rows : List Row) (l : List Latest) → IsKeyed l → IsKeyed (see_attempts rows l)
unfolding see_attempts
see_attempts-IsKeyed [] l h = h
see_attempts-IsKeyed (row ∷ rest) l h =
    see_attempts-IsKeyed rest (see_fact row row.fact l) (see_fact-IsKeyed row row.fact l h)

pub latest_of-IsKeyed : (rows : List Row) → IsKeyed (latest_of rows)
unfolding latest_of
latest_of-IsKeyed rows = see_attempts-IsKeyed (events attempt_kinds rows) [] tt

see_attempts-append :
    (xs ys : List Row) (l : List Latest)
    → see_attempts (xs ++ ys) l ≡ see_attempts ys (see_attempts xs l)
unfolding see_attempts
see_attempts-append [] ys l = refl
see_attempts-append (x ∷ xs) ys l = see_attempts-append xs ys (see_fact x x.fact l)

module _ (ttl now : ℕ) where
  -- Every orphan of `l` has an orphan of `todo` with its id.
  abbrev pub Pending : List Latest → List Latest → Type 0
  Pending todo l =
      All
        (λ y.
          is_orphan ttl now y ≡ true
          → Any (λ x. (x.order_id ≡ y.order_id) × (is_orphan ttl now x ≡ true)) todo)
        l

  abbrev pub Settled : List Latest → Type 0
  Settled l = All (λ y. is_orphan ttl now y ≡ false) l

  pub Pending-Settled : (l : List Latest) → Pending [] l → Settled l
  Pending-Settled l h = All-map done l h
    where
      done : (y : Latest) → (is_orphan ttl now y ≡ true → ⊥) → is_orphan ttl now y ≡ false
      done y h = elim (Bool-cases (is_orphan ttl now y)) [
        | inl orphan ↦ absurd (h orphan)
        | inr other ↦ other
      ]

  pub Pending-skip :
      (e : Latest) (todo l : List Latest)
      → is_orphan ttl now e ≡ false
      → Pending (e ∷ todo) l
      → Pending todo l
  Pending-skip e todo l h k = All-map (λ y p orphan. skip y (p orphan)) l k
    where
      skip :
          (y : Latest)
          → Any (λ x. (x.order_id ≡ y.order_id) × (is_orphan ttl now x ≡ true)) (e ∷ todo)
          → Any (λ x. (x.order_id ≡ y.order_id) × (is_orphan ttl now x ≡ true)) todo
      skip y (inl p) = absurd (false≢true (sym h ∙ p.1))
      skip y (inr p) = p

  pub Pending-self : (l : List Latest) → Pending l l
  Pending-self [] = tt
  Pending-self (x ∷ rest) = (
    λ orphan. inl (refl, orphan),
    All-map (λ y p orphan. inr (p orphan)) rest (Pending-self rest),
  )

  narrow :
      (e y : Latest) (todo : List Latest)
      → e.order_id ≢ y.order_id
      → Any (λ x. (x.order_id ≡ y.order_id) × (is_orphan ttl now x ≡ true)) (e ∷ todo)
      → Any (λ x. (x.order_id ≡ y.order_id) × (is_orphan ttl now x ≡ true)) todo
  narrow e y todo apart (inl p) = absurd (apart p.0)
  narrow e y todo apart (inr p) = p

  pub put-Pending :
      (new e : Latest) (todo l : List Latest)
      → new.order_id ≡ e.order_id
      → is_orphan ttl now new ≡ false
      → IsKeyed l
      → Pending (e ∷ todo) l
      → Pending todo (put new l)
  unfolding put
  put-Pending new e todo [] key settled h k =
      (λ orphan. absurd (false≢true (sym settled ∙ orphan)), tt)
  put-Pending new e todo (x ∷ rest) key settled h k =
      elim (Bool-cases (x.order_id == new.order_id)) [
        | inl same ↦
            let at_e : x.order_id ≡ e.order_id = (eq_iff _ _).0 same ∙ key in
            rw same
              (λ orphan. absurd (false≢true (sym settled ∙ orphan)), keep_on at_e rest h.0 k.1)
        | inr other ↦
            let apart : e.order_id ≢ x.order_id =
              λ p. false≢true (sym other ∙ (eq_iff _ _).1 (sym p ∙ sym key)) in
            rw other (
              λ orphan. narrow e x todo apart (k.0 orphan),
              put-Pending new e todo rest key settled h.1 k.1,
            )
      ]
    where
      keep_on :
          x.order_id ≡ e.order_id
          → (ys : List Latest) → All (λ y. x.order_id ≢ y.order_id) ys
          → Pending (e ∷ todo) ys
          → Pending todo ys
      keep_on at_e [] apart p = tt
      keep_on at_e (y ∷ ys) apart p = (
        λ orphan. narrow e y todo (λ q. apart.0 (at_e ∙ q)) (p.0 orphan),
        keep_on at_e ys apart.1 p.1,
      )

  -- The entry that a cancellation leaves.
  abbrev pub closed : Latest → Latest
  closed e = record { order_id = e.order_id; kind = cancelled; at = now; fact = cancellation e }

  pub closed-settled : (e : Latest) → is_orphan ttl now (closed e) ≡ false
  unfolding is_orphan
  closed-settled e = refl

  cancellation-id : (e : Latest) → get (cancellation e) (text "order_id") ≡ some (str e.order_id)
  unfolding cancellation ◌==◌
  cancellation-id e = refl

  kept_one :
      (row : Row)
      → any (λ k. row.kind == k) attempt_kinds ≡ true
      → keep (λ r. any (λ k. r.kind == k) attempt_kinds) (row ∷ []) ≡ row ∷ []
  kept_one row h = rw h refl

  cancelled_kept : any (λ k. cancelled == k) attempt_kinds ≡ true
  unfolding ◌==◌
  cancelled_kept = refl

  -- A cancellation that is read behind the rows puts its entry.
  pub latest_of-cancellation :
      (rows : List Row) (n : ℕ) (previous hash : Text) (e : Latest)
      → latest_of (
          rows
          ++ record {
            sequence = n;
            at = now;
            kind = cancelled;
            previous = previous;
            fact = obj (cancellation e);
            hash = hash;
          }
            ∷ [])
        ≡ put (closed e) (latest_of rows)
  unfolding latest_of events see_attempts see_fact see_named
  latest_of-cancellation rows n previous hash e =
      let row : Row = record {
        sequence = n;
        at = now;
        kind = cancelled;
        previous = previous;
        fact = obj (cancellation e);
        hash = hash;
      } in
      let is_kind : Row → Bool = λ r. any (λ k. r.kind == k) attempt_kinds in
      let one : keep is_kind (row ∷ []) ≡ row ∷ [] = kept_one row cancelled_kept in
      ap (λ l. see_attempts l []) (keep-append is_kind rows (row ∷ []))
      ∙ see_attempts-append (keep is_kind rows) (keep is_kind (row ∷ [])) []
      ∙ ap (λ l. see_attempts l (see_attempts (keep is_kind rows) [])) one
      ∙ ap (λ found. see_named row (cancellation e) found (see_attempts (keep is_kind rows) []))
          (cancellation-id e)
