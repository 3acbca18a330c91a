-- ===== src/Scheduler/Eligible.antt =====
-- The inputs of `build_plan`, and its tests of one order on one route.
use idol_id_agents.Prelude.{
  ℕ, ◌-◌, ◌*◌, Text, ◌&&◌, not, List, [], ◌∷◌, ◌++◌, map, any, all, keep, is_empty, ◌==◌, leb, ltb,
  Option, none, some, or_else, if◌then◌else◌,
}
use mathlib.Core.Bool.{decide}
use idol_id_agents.Model.{Route, WorkOrder, second}
use idol_id_agents.Model.Atoms.{member}
use idol_id_agents.Policy.{PolicyReason, verdict_reasons, reviews_own_family, note_if}
use idol_id_agents.Scheduler.{orders_conflict}
use idol_id_agents.Scheduler.Floats.{Floats, fmax, fmin}
use idol_id_agents.Scheduler.Score.{Note, score_pair}

pub data Reason : Type 0 where
  stale_base_sha active_claim_conflict acknowledged_route_unavailable route_missing : Reason
  policy : PolicyReason → Reason
  role_not_admitted reviewer_family_not_independent route_capacity_full : Reason
  allowance_exhausted cannot_finish_before_any_reset no_eligible_route : Reason
  selected_claim_conflict : Reason

unfoldable pub PolicyReason-discrete : Discrete PolicyReason
PolicyReason-discrete = hlevel

unfoldable pub Reason-discrete : Discrete Reason
Reason-discrete = hlevel

-- `tuple(dict.fromkeys(reasons))`: the first of equal reasons stays.
pub first_of_each : List Reason → List Reason
unfolding Reason-discrete
first_of_each [] = []
first_of_each (r ∷ rest) = r ∷ keep (λ s. not (decide (Reason-discrete s r))) (first_of_each rest)

pub record Rejection : Type 0 where
  pub order_id : Text
  pub route_id : Option Text
  pub reasons : List Reason

pub record Assignment (F : Floats) : Type 0 where
  pub order : WorkOrder
  pub route : Route
  pub score : F.Float
  pub reason : List (Note F)

-- The keyword arguments of `build_plan`, `now` already read. A mapping is its `get`.
pub record Request (F : Floats) : Type 0 where
  pub base_sha : Text
  pub orders : List WorkOrder
  pub routes : List Route
  pub active_orders : List WorkOrder
  pub route_active : Text → ℕ
  pub route_performance : Text → Option F.Float
  pub acknowledged_routes : Text → Option (List Text)
  pub max_assignments : ℕ
  pub now : ℕ

-- `{route.id: route for route in routes}.get(id)`: of equal ids the last stays.
unfoldable pub route_by_id : List Route → Text → Option Route
unfolding ◌==◌
route_by_id [] id = none
route_by_id (route ∷ rest) id = elim (route_by_id rest id) [
  | some later ↦ some later
  | none ↦ if route.id == id then some route else none
]

module _ (F : Floats) (subject_hash : Route → Text) (q : Request F) where
  open q use {base_sha, active_orders, routes, now}

  unfoldable pub order_reasons : WorkOrder → List Reason
  order_reasons order =
      note_if (not (order.base_sha == base_sha)) stale_base_sha
      ++ note_if (any (λ held. orders_conflict order held) active_orders) active_claim_conflict

  unfoldable pub pair_reasons : WorkOrder → Route → List Reason
  pair_reasons order route =
      map policy (verdict_reasons subject_hash route now)
      ++ (note_if (not (member order.role route.roles)) role_not_admitted
          ++ (note_if (reviews_own_family order route) reviewer_family_not_independent
              ++ (note_if (leb route.max_parallel (q.route_active route.id)) route_capacity_full
                  ++ (note_if
                        (not (is_empty route.allowance)
                          && all (λ w. leb w.remaining_fraction 0) route.allowance)
                        allowance_exhausted
                      ++ note_if
                          (not (is_empty route.allowance)
                            && all (λ w. ltb (w.resets_at - now) (order.estimated_seconds * second))
                                route.allowance)
                          cannot_finish_before_any_reset))))

  unfoldable pub assign : WorkOrder → Route → Assignment F
  unfolding score_pair
  assign order route =
      let one = F.of_ratio 1 1 in
      let known = or_else (q.route_performance route.id) one in
      let performance = fmax F (F.of_ratio 4 10) (fmin F (F.of_ratio 16 10) known) in
      let (score, notes) = score_pair F order route now performance in
      record { order = order; route = route; score = score; reason = notes }

  -- What one route of an order gives: a candidate, or a rejection.
  pub data Verdict : Type 0 where
    candidate : Assignment F → Verdict
    rejected : Rejection → Verdict

  unfoldable pub judge_route : WorkOrder → Route → Verdict
  unfolding pair_reasons assign first_of_each
  judge_route order route =
      let reasons = pair_reasons order route in
      if is_empty reasons
      then candidate (assign order route)
      else rejected (record {
        order_id = order.id;
        route_id = some route.id;
        reasons = first_of_each reasons;
      })

  -- The body of the loop over the order's route ids, from what `route_by_id` has for the id.
  unfoldable pub judge_found : WorkOrder → Text → Option Route → Verdict
  judge_found order id none =
      rejected (record { order_id = order.id; route_id = some id; reasons = route_missing ∷ [] })
  judge_found order id (some route) = judge_route order route

  unfoldable pub judge : WorkOrder → Text → Verdict
  judge order id = judge_found order id (route_by_id routes id)
