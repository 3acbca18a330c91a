-- ===== src/Scheduler/Plan/Capacity.antt =====
-- The second loop of `build_plan` never passes a route's `max_parallel`, and its counts are those of
-- the running work and of the choice.
use mathlib.Core.Path.{subst}
use idol_id_agents.Prelude.{
  ℕ, suc, ◌+◌, ◌≤◌, Text, ◌≡◌, sym, inl, inr, List, [], ◌∷◌, ◌++◌, ◌==◌, eq_iff, eq_refl, any, leb,
  length, All, All-append, Bool-cases, arith, if◌then◌else◌, some,
}
use idol_id_agents.Model.{Route}
use idol_id_agents.Scheduler.{orders_conflict}
use idol_id_agents.Scheduler.Floats.{Floats}
use idol_id_agents.Scheduler.Eligible.{Assignment, route_by_id}
use idol_id_agents.Scheduler.Plan.{Chosen, consider, choose, bump}

module _ (F : Floats) where
  -- How many assignments use the route `id`.
  unfoldable pub uses : Text → List (Assignment F) → ℕ
  uses id [] = 0
  uses id (a ∷ rest) = (if a.route.id == id then 1 else 0) + uses id rest

  uses-snoc :
      (id : Text) (xs : List (Assignment F)) (a : Assignment F)
      → uses id (xs ++ a ∷ []) ≡ uses id xs + (if a.route.id == id then 1 else 0)
  unfolding uses
  uses-snoc id [] a = omega arith
  uses-snoc id (x ∷ xs) a = omega (arith, uses-snoc id xs a)

  module _ (routes : List Route) (start : Text → ℕ) where
    -- The assignment's route is the one that its id names.
    abbrev pub IsNamed : Assignment F → Type 0
    IsNamed a = route_by_id routes a.route.id ≡ some a.route

    pub record IsWithin (s : Chosen F) : Type 0 where
      pub counted : (id : Text) → s.counts id ≡ start id + uses id s.chosen
      pub room : All (λ a. s.counts a.route.id ≤ a.route.max_parallel) s.chosen
      pub named : All IsNamed s.chosen

    same_route :
        (a c : Assignment F) → IsNamed a → IsNamed c → a.route.id ≡ c.route.id → a.route ≡ c.route
    same_route a c p q e = cc

    room-bump_one :
        (c a : Assignment F) (counts : Text → ℕ)
        → suc (counts c.route.id) ≤ c.route.max_parallel
        → IsNamed c
        → IsNamed a
        → counts a.route.id ≤ a.route.max_parallel
        → bump F c.route.id counts a.route.id ≤ a.route.max_parallel
    unfolding bump
    room-bump_one c a counts free p pa h = elim (Bool-cases (c.route.id == a.route.id)) [
      | inl e ↦
          let same = same_route a c pa p (sym ((eq_iff c.route.id a.route.id).0 e)) in
          rw e (subst (λ r. counts r.id + 1 ≤ r.max_parallel) (sym same) (omega arith))
      | inr ne ↦ rw ne h
    ]

    room-bump :
        (c : Assignment F) (counts : Text → ℕ) (xs : List (Assignment F))
        → suc (counts c.route.id) ≤ c.route.max_parallel
        → IsNamed c
        → All IsNamed xs
        → All (λ a. counts a.route.id ≤ a.route.max_parallel) xs
        → All (λ a. bump F c.route.id counts a.route.id ≤ a.route.max_parallel) xs
    room-bump c counts [] free p ps h = tt
    room-bump c counts (a ∷ xs) free p ps h =
        (room-bump_one c a counts free p ps.0 h.0, room-bump c counts xs free p ps.1 h.1)

    consider-IsWithin :
        (c : Assignment F) (s : Chosen F) → IsNamed c → IsWithin s → IsWithin (consider F c s)
    unfolding consider bump
    consider-IsWithin c s p h =
        elim (Bool-cases (any (λ kept. orders_conflict c.order kept.order) s.chosen)) [
          | inl conflict ↦
              rw conflict (record { counted = h.counted; room = h.room; named = h.named })
          | inr free ↦ elim (Bool-cases (leb c.route.max_parallel (s.counts c.route.id))) [
            | inl full ↦ rw (free, full) h
            | inr room ↦
                rw (free, room)
                  (record {
                    counted = λ id. ground (arith, uses-snoc id s.chosen c, h.counted id);
                    room =
                        All-append _ s.chosen (c ∷ [])
                          (room-bump c s.counts s.chosen (ground arith) p h.named h.room)
                          (ground (arith, eq_refl c.route.id), tt);
                    named = All-append IsNamed s.chosen (c ∷ []) h.named (p, tt);
                  })
          ]
        ]

    pub choose-IsWithin :
        (most : ℕ) (cs : List (Assignment F)) (s : Chosen F)
        → All IsNamed cs
        → IsWithin s
        → IsWithin (choose F most cs s)
    unfolding choose
    choose-IsWithin most [] s ps h = h
    choose-IsWithin most (c ∷ rest) s ps h = elim (Bool-cases (leb most (length s.chosen))) [
      | inl done ↦ rw done h
      | inr more ↦
          rw more (choose-IsWithin most rest (consider F c s) ps.1 (consider-IsWithin c s ps.0 h))
    ]
