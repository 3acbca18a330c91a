-- ===== src/Scheduler/Plan/Choice.antt =====
-- The second loop of `build_plan`: the choice is within its limit, free of conflicts and maximal.
use mathlib.Core.Path.{subst}
use mathlib.Core.List.{append-nil, append_assoc}
use native.Mathlib.Nat.{le_refl, le_trans}
use idol_id_agents.Prelude.{
  ◌∙◌, leb→le, All-append, ℕ, suc, ◌≤◌, Text, true, false, ◌≡◌, refl, sym, ap, ◌⊎◌, inl, inr, List,
  [], ◌∷◌, ◌++◌, any, any-false, any-true, leb, length, length-append, All, Any, Any-append_left,
  Any-append_right, Pairwise, Pairwise-snoc, Bool-cases, arith,
}
use idol_id_agents.Scheduler.{orders_conflict}
use idol_id_agents.Scheduler.Floats.{Floats}
use idol_id_agents.Scheduler.Eligible.{Assignment, Rejection}
use idol_id_agents.Scheduler.Plan.{Chosen, consider, choose, bump}

module _ (F : Floats) where
  -- An earlier choice and a later one whose claims do not overlap.
  abbrev pub Apart : Assignment F → Assignment F → Type 0
  Apart earlier later = orders_conflict later.order earlier.order ≡ false

  pub record IsChoice (most : ℕ) (s : Chosen F) : Type 0 where
    pub fits : length s.chosen ≤ most
    pub apart : Pairwise Apart s.chosen

  consider-IsChoice :
      (most : ℕ) (c : Assignment F) (s : Chosen F)
      → suc (length s.chosen) ≤ most
      → IsChoice most s
      → IsChoice most (consider F c s)
  unfolding consider
  consider-IsChoice most c s room h =
      elim (Bool-cases (any (λ kept. orders_conflict c.order kept.order) s.chosen)) [
        | inl conflict ↦ rw conflict (record { fits = h.fits; apart = h.apart })
        | inr free ↦ elim (Bool-cases (leb c.route.max_parallel (s.counts c.route.id))) [
          | inl full ↦ rw (free, full) h
          | inr open' ↦
              rw (free, open')
                (record {
                  fits = omega (arith, length-append s.chosen (c ∷ []));
                  apart = Pairwise-snoc Apart s.chosen c h.apart (any-false _ s.chosen free);
                })
        ]
      ]

  pub choose-IsChoice :
      (most : ℕ) (cs : List (Assignment F)) (s : Chosen F)
      → IsChoice most s
      → IsChoice most (choose F most cs s)
  unfolding choose
  choose-IsChoice most [] s h = h
  choose-IsChoice most (c ∷ rest) s h = elim (Bool-cases (leb most (length s.chosen))) [
    | inl done ↦ rw done h
    | inr more ↦
        rw more
          (choose-IsChoice most rest (consider F c s) (consider-IsChoice most c s (ground arith) h))
  ]

  -- A candidate that is chosen, that conflicts with a choice, or whose route is full.
  abbrev pub Settled : Chosen F → Assignment F → Type 0
  Settled s c =
      Any (λ kept. kept ≡ c) s.chosen
      ⊎ Any (λ kept. orders_conflict c.order kept.order ≡ true) s.chosen
      ⊎ (c.route.max_parallel ≤ s.counts c.route.id)

  -- Later states only add to the choice and to the counts.
  pub record Extends (s t : Chosen F) : Type 0 where
    pub more : List (Assignment F)
    pub chosen : t.chosen ≡ s.chosen ++ more
    pub counts : (id : Text) → s.counts id ≤ t.counts id
    pub refused : List Rejection
    pub rejections : t.rejections ≡ s.rejections ++ refused

  Extends-refl : (s : Chosen F) → Extends s s
  Extends-refl s = record {
    more = [];
    chosen = sym (append-nil s.chosen);
    counts = λ id. le_refl _;
    refused = [];
    rejections = sym (append-nil s.rejections);
  }

  Extends-trans : {s t u : Chosen F} → Extends s t → Extends t u → Extends s u
  Extends-trans {s} a b = record {
    more = a.more ++ b.more;
    chosen = b.chosen ∙ ap (λ l. l ++ b.more) a.chosen ∙ append_assoc s.chosen a.more b.more;
    counts = λ id. le_trans (a.counts id) (b.counts id);
    refused = a.refused ++ b.refused;
    rejections =
        b.rejections
        ∙ ap (λ l. l ++ b.refused) a.rejections
        ∙ append_assoc s.rejections a.refused b.refused;
  }

  bump-le : (id other : Text) (counts : Text → ℕ) → counts other ≤ bump F id counts other
  unfolding bump
  bump-le id other counts = ground arith

  consider-Extends : (c : Assignment F) (s : Chosen F) → Extends s (consider F c s)
  unfolding consider
  consider-Extends c s =
      elim (Bool-cases (any (λ kept. orders_conflict c.order kept.order) s.chosen)) [
        | inl conflict ↦ rw conflict (record {
          more = [];
          chosen = sym (append-nil s.chosen);
          counts = λ id. le_refl _;
          refused = _ ∷ [];
          rejections = refl;
        })
        | inr free ↦ elim (Bool-cases (leb c.route.max_parallel (s.counts c.route.id))) [
          | inl full ↦ rw (free, full) (Extends-refl s)
          | inr room ↦
              rw (free, room)
                (record {
                  more = c ∷ [];
                  chosen = refl;
                  counts = λ id. bump-le c.route.id id s.counts;
                  refused = [];
                  rejections = sym (append-nil s.rejections);
                })
        ]
      ]

  pub choose-Extends :
      (most : ℕ) (cs : List (Assignment F)) (s : Chosen F) → Extends s (choose F most cs s)
  unfolding choose
  choose-Extends most [] s = Extends-refl s
  choose-Extends most (c ∷ rest) s = elim (Bool-cases (leb most (length s.chosen))) [
    | inl done ↦ rw done (Extends-refl s)
    | inr more ↦
        rw more (Extends-trans (consider-Extends c s) (choose-Extends most rest (consider F c s)))
  ]

  Settled-Extends : {s t : Chosen F} (c : Assignment F) → Extends s t → Settled s c → Settled t c
  Settled-Extends {s} c e (inl p) = inl (rw e.chosen (Any-append_left _ s.chosen e.more p))
  Settled-Extends {s} c e (inr (inl p)) =
      inr (inl (rw e.chosen (Any-append_left _ s.chosen e.more p)))
  Settled-Extends c e (inr (inr p)) = inr (inr (le_trans p (e.counts c.route.id)))

  consider-Settled : (c : Assignment F) (s : Chosen F) → Settled (consider F c s) c
  unfolding consider
  consider-Settled c s =
      elim (Bool-cases (any (λ kept. orders_conflict c.order kept.order) s.chosen)) [
        | inl conflict ↦ rw conflict (inr (inl (any-true _ s.chosen conflict)))
        | inr free ↦ elim (Bool-cases (leb c.route.max_parallel (s.counts c.route.id))) [
          | inl full ↦ rw (free, full) (inr (inr (leb→le _ _ full)))
          | inr room ↦
              rw (free, room)
                (inl (Any-append_right (λ kept. kept ≡ c) s.chosen (c ∷ []) (inl refl)))
        ]
      ]

  choose-more :
      (most : ℕ) (c : Assignment F) (rest : List (Assignment F)) (s : Chosen F)
      → leb most (length s.chosen) ≡ false
      → choose F most (c ∷ rest) s ≡ choose F most rest (consider F c s)
  unfolding choose
  choose-more most c rest s more = rw more

  choose-done :
      (most : ℕ) (c : Assignment F) (rest : List (Assignment F)) (s : Chosen F)
      → leb most (length s.chosen) ≡ true
      → choose F most (c ∷ rest) s ≡ s
  unfolding choose
  choose-done most c rest s done = rw done

  -- Unless the choice is full, every candidate is settled in the end.
  abbrev pub Complete : ℕ → List (Assignment F) → Chosen F → Type 0
  Complete most cs t = (most ≤ length t.chosen) ⊎ All (Settled t) cs

  Complete-cons :
      (most : ℕ) (c : Assignment F) (rest : List (Assignment F)) (t : Chosen F)
      → Settled t c
      → Complete most rest t
      → Complete most (c ∷ rest) t
  Complete-cons most c rest t h (inl full) = inl full
  Complete-cons most c rest t h (inr others) = inr (h, others)

  pub choose-Complete :
      (most : ℕ) (cs : List (Assignment F)) (s : Chosen F) → Complete most cs (choose F most cs s)
  choose-Complete most [] s = inr tt
  choose-Complete most (c ∷ rest) s = elim (Bool-cases (leb most (length s.chosen))) [
    | inl done ↦
        subst (Complete most (c ∷ rest)) (sym (choose-done most c rest s done))
          (inl (leb→le _ _ done))
    | inr more ↦
        let t = choose F most rest (consider F c s) in
        subst (Complete most (c ∷ rest)) (sym (choose-more most c rest s more)) (
          Complete-cons most c rest t
            (Settled-Extends c (choose-Extends most rest (consider F c s)) (consider-Settled c s))
            (choose-Complete most rest (consider F c s)))
  ]

  pub consider-All :
      (P : Assignment F → Type 0) (c : Assignment F) (s : Chosen F)
      → P c
      → All P s.chosen
      → All P (consider F c s).chosen
  unfolding consider
  consider-All P c s p k =
      elim (Bool-cases (any (λ kept. orders_conflict c.order kept.order) s.chosen)) [
        | inl conflict ↦ rw conflict k
        | inr free ↦ elim (Bool-cases (leb c.route.max_parallel (s.counts c.route.id))) [
          | inl full ↦ rw (free, full) k
          | inr room ↦ rw (free, room) (All-append P s.chosen (c ∷ []) k (p, tt))
        ]
      ]

  -- What holds of every candidate holds of every choice.
  pub choose-All :
      (P : Assignment F → Type 0) (most : ℕ) (cs : List (Assignment F)) (s : Chosen F)
      → All P cs
      → All P s.chosen
      → All P (choose F most cs s).chosen
  unfolding choose
  choose-All P most [] s h k = k
  choose-All P most (c ∷ rest) s h k = elim (Bool-cases (leb most (length s.chosen))) [
    | inl done ↦ rw done k
    | inr more ↦ rw more (choose-All P most rest (consider F c s) h.1 (consider-All P c s h.0 k))
  ]
