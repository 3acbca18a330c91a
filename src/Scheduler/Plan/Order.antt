-- ===== src/Scheduler/Plan/Order.antt =====
-- The candidates are tried in the order of their scores.
use idol_id_agents.Prelude.{
  ℕ, Text, Bool, true, false, ◌≡◌, inl, inr, List, [], ◌∷◌, ◌&&◌, ◌||◌, ◌==◌, eq_iff, any, leb,
  length, All, All-map, Pairwise, Pairwise-snoc, Pairwise-map, Bool-cases, arith, text_lt,
  text_lt_asym, text_lt_conn, not_text_lt_trans,
}
use idol_id_agents.Scheduler.{orders_conflict}
use idol_id_agents.Scheduler.Floats.{Floats}
use idol_id_agents.Scheduler.Eligible.{Assignment}
use idol_id_agents.Scheduler.Sort.{sort, sort-InOrder}
use idol_id_agents.Scheduler.Plan.{Chosen, before, consider, choose}
use idol_id_agents.Scheduler.Plan.Choice.{consider-All}

module _ (F : Floats) where
  -- The ids decide between equal scores.
  ids_before : (i j k l : Text) → Bool
  ids_before i j k l = text_lt i j || ((i == j) && text_lt k l)

  ids_before_asym : (i j k l : Text) → ids_before i j k l ≡ true → ids_before j i l k ≡ false
  unfolding ids_before
  ids_before_asym i j k l h =
      ground (arith, text_lt_asym i j, text_lt_asym k l, text_lt_asym j i, eq_iff i j, eq_iff j i)

  not_ids_before_trans :
      (i j m k l n : Text)
      → ids_before j i l k ≡ false
      → ids_before m j n l ≡ false
      → ids_before m i n k ≡ false
  unfolding ids_before
  not_ids_before_trans i j m k l n h g = ground (
    arith,
    not_text_lt_trans i j m,
    not_text_lt_trans k l n,
    text_lt_conn i j,
    text_lt_conn j m,
    text_lt_asym i j,
    text_lt_asym j m,
    not_text_lt_trans j m i,
    not_text_lt_trans m i j,
    eq_iff i j,
    eq_iff j i,
    eq_iff m j,
    eq_iff m i,
  )

  before_asym : (a b : Assignment F) → before F a b ≡ true → before F b a ≡ false
  unfolding before
  before_asym a b h =
      let ids = ids_before_asym a.order.id b.order.id a.route.id b.route.id in
      unfold ids_before in ground (arith, ids, F.lt_asym a.score b.score, F.lt_asym b.score a.score)

  not_before_trans :
      (a b c : Assignment F) → before F b a ≡ false → before F c b ≡ false → before F c a ≡ false
  unfolding before
  not_before_trans a b c h k =
      let ids =
        not_ids_before_trans a.order.id b.order.id c.order.id a.route.id b.route.id c.route.id in
      unfold ids_before in
      ground (
        arith,
        ids,
        F.not_lt_trans a.score b.score c.score,
        F.not_lt_trans a.score c.score b.score,
        F.not_lt_trans c.score b.score a.score,
        F.not_lt_trans b.score c.score a.score,
        F.not_lt_trans b.score a.score c.score,
        F.not_lt_trans c.score a.score b.score,
        F.lt_asym a.score b.score,
        F.lt_asym b.score c.score,
        F.lt_asym a.score c.score,
      )

  -- A later assignment has no higher score.
  abbrev pub NoLess : Assignment F → Assignment F → Type 0
  NoLess earlier later = F.lt earlier.score later.score ≡ false

  no_less : (a b : Assignment F) → before F b a ≡ false → NoLess a b
  unfolding before
  no_less a b h = ground arith

  module _ (R : Assignment F → Assignment F → Type 0) where
    consider-after :
        (c : Assignment F) (s : Chosen F)
        → All (λ a. R a c) s.chosen
        → Pairwise R s.chosen
        → Pairwise R (consider F c s).chosen
    unfolding consider
    consider-after c s before_c h =
        elim (Bool-cases (any (λ kept. orders_conflict c.order kept.order) s.chosen)) [
          | inl conflict ↦ rw conflict h
          | inr free ↦ elim (Bool-cases (leb c.route.max_parallel (s.counts c.route.id))) [
            | inl full ↦ rw (free, full) h
            | inr room ↦ rw (free, room) (Pairwise-snoc R s.chosen c h before_c)
          ]
        ]

    -- What relates the candidates in their order relates the choices.
    pub choose-Pairwise :
        (most : ℕ) (cs : List (Assignment F)) (s : Chosen F)
        → All (λ a. All (R a) cs) s.chosen
        → Pairwise R cs
        → Pairwise R s.chosen
        → Pairwise R (choose F most cs s).chosen
    unfolding choose
    choose-Pairwise most [] s ahead order h = h
    choose-Pairwise most (c ∷ rest) s ahead order h =
        elim (Bool-cases (leb most (length s.chosen))) [
          | inl done ↦ rw done h
          | inr more ↦ rw more (
              choose-Pairwise most rest (consider F c s)
                (consider-All F (λ a. All (R a) rest) c s order.0
                  (All-map (λ a e. e.1) s.chosen ahead))
                order.1 (consider-after c s (All-map (λ a e. e.0) s.chosen ahead) h))
        ]

  pub sorted-NoLess : (cs : List (Assignment F)) → Pairwise NoLess (sort (before F) cs)
  sorted-NoLess cs =
      Pairwise-map no_less (sort (before F) cs)
        (sort-InOrder (before F) before_asym not_before_trans cs)
