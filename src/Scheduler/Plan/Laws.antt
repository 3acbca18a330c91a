-- ===== src/Scheduler/Plan/Laws.antt =====
-- What `build_plan` guarantees of the plan that it returns.
use idol_id_agents.Prelude.{
  ◌+◌, ◌≤◌, Text, true, false, ◌≡◌, refl, sym, ◌∙◌, ◌⊎◌, inl, inr, List, [], length, text_lt, All,
  Any, All-map, All-self, All-any, All-zip, Any-append_left, Pairwise, Pairwise-map, arith,
}
use mathlib.Core.Path.{subst}
use idol_id_agents.Model.{Route, WorkOrder}
use idol_id_agents.Scheduler.{orders_conflict}
use idol_id_agents.Scheduler.Conflict.{orders_conflict_sym}
use idol_id_agents.Scheduler.Floats.{Floats}
use idol_id_agents.Scheduler.Sort.{sort, sort-All, sort-All_back}
use idol_id_agents.Scheduler.Eligible.{Assignment, Request}
use idol_id_agents.Scheduler.Plan.{Gathered, Chosen, Schedule, before, gather, choose, build_plan}
use idol_id_agents.Scheduler.Plan.Choice.{
  choose-IsChoice, choose-All, choose-Complete, choose-Extends, Settled,
}
use idol_id_agents.Scheduler.Plan.Capacity.{uses, IsWithin, choose-IsWithin}
use idol_id_agents.Scheduler.Plan.Gather.{IsCandidate, Accounted}
use idol_id_agents.Scheduler.Plan.Accounts.{gather_sound}
use idol_id_agents.Scheduler.Plan.Order.{NoLess, choose-Pairwise, sorted-NoLess}

module _ (F : Floats) (subject_hash : Route → Text) (q : Request F) where
  -- The parts of the plan, under the names of their steps.
  abbrev by_id : List WorkOrder
  by_id = sort (λ a b. text_lt a.id b.id) q.orders

  abbrev gathered : Gathered F
  gathered = gather F subject_hash q by_id (record { candidates = []; rejections = [] })

  abbrev ranked : List (Assignment F)
  ranked = sort (before F) gathered.candidates

  abbrev start : Chosen F
  start = record { chosen = []; rejections = gathered.rejections; counts = q.route_active }

  abbrev final : Chosen F
  final = choose F q.max_assignments ranked start

  abbrev plan : Schedule F
  plan = build_plan F subject_hash q

  plan-final : (plan.assignments ≡ final.chosen) × (plan.rejections ≡ final.rejections)
  unfolding build_plan
  plan-final = (refl, refl)

  gathered_sound :
      All (IsCandidate F subject_hash q) gathered.candidates
      × All (λ order. Accounted F subject_hash q order gathered) by_id
  gathered_sound =
      gather_sound F subject_hash q by_id (record { candidates = []; rejections = [] })
        (sort-All (λ a b. text_lt a.id b.id) _ q.orders (All-self q.orders)) tt

  ranked_sound : All (IsCandidate F subject_hash q) ranked
  ranked_sound = sort-All (before F) _ gathered.candidates gathered_sound.0

  -- Every assignment of a plan pairs an order of the request, at the request's base commit and clear
  -- of all active claims, with the route that its id names, which the order lists (and its
  -- acknowledgement, if it has one, admits), which is trusted, admits the role, reviews no order of
  -- its own family, has room, and has allowance and time left where these are measured.
  pub build_plan_sound : All (IsCandidate F subject_hash q) plan.assignments
  build_plan_sound =
      subst (All (IsCandidate F subject_hash q)) (sym plan-final.0)
        (choose-All F _ q.max_assignments ranked start ranked_sound tt)

  -- Two assignments whose orders do not conflict, whichever comes first.
  abbrev pub Clear : Assignment F → Assignment F → Type 0
  Clear a b = (orders_conflict a.order b.order ≡ false) × (orders_conflict b.order a.order ≡ false)

  both_ways : (a b : Assignment F) → orders_conflict b.order a.order ≡ false → Clear a b
  both_ways a b h = (orders_conflict_sym a.order b.order ∙ h, h)

  -- A plan has at most `max_assignments` assignments, and no two of them conflict.
  pub build_plan-apart :
      (length plan.assignments ≤ q.max_assignments) × Pairwise Clear plan.assignments
  build_plan-apart =
      let choice =
        choose-IsChoice F q.max_assignments ranked start
          (record { fits = omega arith; apart = tt }) in
      subst (λ l. (length l ≤ q.max_assignments) × Pairwise Clear l) (sym plan-final.0)
        (choice.fits, Pairwise-map both_ways final.chosen choice.apart)

  start-counted : (id : Text) → start.counts id ≡ q.route_active id + uses F id start.chosen
  unfolding uses
  start-counted id = omega arith

  within : IsWithin F q.routes q.route_active final
  within =
      choose-IsWithin F q.routes q.route_active q.max_assignments ranked start
        (All-map (λ a c. c.named) ranked ranked_sound)
        (record { counted = λ id. start-counted id; room = tt; named = tt })

  -- With what is already running, no route of the plan is used beyond its `max_parallel`.
  pub build_plan-le-parallel :
      All
        (λ a. q.route_active a.route.id + uses F a.route.id plan.assignments ≤ a.route.max_parallel)
        plan.assignments
  build_plan-le-parallel =
      subst
        (λ l. All (λ a. q.route_active a.route.id + uses F a.route.id l ≤ a.route.max_parallel) l)
        (sym plan-final.0)
        (All-map (λ a h. rw (← within.counted a.route.id) h) final.chosen within.room)

  -- The assignments of a plan come in the order of their scores, none before one that scores higher.
  pub build_plan-ranked : Pairwise (NoLess F) plan.assignments
  build_plan-ranked = subst (Pairwise (NoLess F)) (sym plan-final.0) (
      choose-Pairwise F (NoLess F) q.max_assignments ranked start tt
        (sorted-NoLess F gathered.candidates) tt)

  -- A candidate that is chosen, or conflicts with a choice, or whose route is full under the plan.
  abbrev pub IsSettled : Assignment F → Type 0
  IsSettled a =
      Any (λ kept. kept ≡ a) plan.assignments
      ⊎ Any (λ kept. orders_conflict a.order kept.order ≡ true) plan.assignments
      ⊎ (a.route.max_parallel ≤ q.route_active a.route.id + uses F a.route.id plan.assignments)

  -- What the plan says of an order: a rejection of its id, or a candidate of it that only a full
  -- plan, a conflicting choice or a full route kept out.
  pub data IsAnswered (order : WorkOrder) : Type 0 where
    refused : Any (λ r. r.order_id ≡ order.id) plan.rejections → IsAnswered order
    considered :
        (a : Assignment F)
        → a.order ≡ order
        → IsCandidate F subject_hash q a
        → (q.max_assignments ≤ length plan.assignments) ⊎ IsSettled a
        → IsAnswered order

  Settled-plan : (a : Assignment F) → Settled F final a → IsSettled a
  Settled-plan a (inl h) = inl (rw plan-final.0 h)
  Settled-plan a (inr (inl h)) = inr (inl (rw plan-final.0 h))
  Settled-plan a (inr (inr h)) = inr (inr (rw plan-final.0 (rw (← within.counted a.route.id) h)))

  -- Unless the plan is full, every gathered candidate is settled.
  All-IsSettled : (q.max_assignments ≤ length plan.assignments) ⊎ All IsSettled gathered.candidates
  All-IsSettled = elim (choose-Complete F q.max_assignments ranked start) [
    | inl full ↦ inl (rw plan-final.0 full)
    | inr settled ↦ inr (
        sort-All_back (before F) IsSettled gathered.candidates
          (All-map Settled-plan ranked settled))
  ]

  answer : (order : WorkOrder) → Accounted F subject_hash q order gathered → IsAnswered order
  answer order (inr h) =
      let grown = choose-Extends F q.max_assignments ranked start in
      refused (
        rw plan-final.1
          (rw grown.rejections (Any-append_left _ gathered.rejections grown.refused h)))
  answer order (inl h) = elim All-IsSettled [
    | inl full ↦
        let (a, c, e) = All-any _ _ gathered.candidates gathered_sound.0 h in
        considered a e c (inl full)
    | inr settled ↦
        let both = All-zip _ _ gathered.candidates gathered_sound.0 settled in
        let (a, c, e) = All-any _ _ gathered.candidates both h in considered a e c.0 (inr c.1)
  ]

  -- Every order of the request is answered: the plan has a rejection of its id, or it was a sound
  -- candidate, which was chosen unless the plan was full, a choice conflicted with it, or its route
  -- had no room left.
  pub build_plan-answers : All IsAnswered q.orders
  build_plan-answers =
      sort-All_back (λ a b. text_lt a.id b.id) IsAnswered q.orders
        (All-map answer by_id gathered_sound.1)
