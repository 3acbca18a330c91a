-- ===== src/Scheduler/Plan.antt =====
-- `build_plan`: the loop over the orders, which collects candidates, and the loop over the sorted
-- candidates, which chooses.
pub mod Choice
pub mod Capacity
pub mod Candidates
pub mod Gather
pub mod Accounts
pub mod Order
pub mod Laws
pub mod Once
use idol_id_agents.Prelude.{
  ℕ, suc, ◌+◌, Text, Bool, true, false, ◌&&◌, ◌||◌, not, List, [], ◌∷◌, ◌++◌, any, keep, is_empty,
  ◌==◌, leb, length, text_lt, Option, none, some, if◌then◌else◌,
}
use idol_id_agents.Model.{Route, WorkOrder}
use idol_id_agents.Model.Atoms.{member}
use idol_id_agents.Scheduler.{orders_conflict}
use idol_id_agents.Scheduler.Floats.{Floats}
use idol_id_agents.Scheduler.Sort.{sort}
use idol_id_agents.Scheduler.Eligible.{
  Reason, Rejection, Assignment, Request, Verdict, candidate, rejected, order_reasons, judge,
  judge_found, judge_route, pair_reasons, route_by_id, no_eligible_route, selected_claim_conflict,
  acknowledged_route_unavailable,
}

module _ (F : Floats) where
  -- The lists `candidates` and `rejected`.
  pub record Gathered : Type 0 where
    pub candidates : List (Assignment F)
    pub rejections : List Rejection

  -- The lists `chosen` and `rejected`, and the dictionary `counts`.
  pub record Chosen : Type 0 where
    pub chosen : List (Assignment F)
    pub rejections : List Rejection
    pub counts : Text → ℕ

  pub record Schedule : Type 0 where
    pub observed_at : ℕ
    pub base_sha : Text
    pub assignments : List (Assignment F)
    pub rejections : List Rejection

  abbrev pub reject : Rejection → Gathered → Gathered
  reject r g = record g { rejections = g.rejections ++ r ∷ [] }

  abbrev pub plain : WorkOrder → List Reason → Rejection
  plain order reasons = record { order_id = order.id; route_id = none; reasons = reasons }

  -- The sort key `(-score, order.id, route.id)`.
  pub before : Assignment F → Assignment F → Bool
  unfolding text_lt ◌==◌
  before a b =
      F.lt b.score a.score
      || (not (F.lt a.score b.score)
          && (text_lt a.order.id b.order.id
              || ((a.order.id == b.order.id) && text_lt a.route.id b.route.id)))

  -- `counts[id] = counts.get(id, 0) + 1`.
  pub bump : Text → (Text → ℕ) → Text → ℕ
  unfolding ◌==◌
  bump id counts other = if id == other then counts other + 1 else counts other

  -- The body of the second loop, below its `break`.
  pub consider : Assignment F → Chosen → Chosen
  consider c s =
      if any (λ kept. orders_conflict c.order kept.order) s.chosen
      then record s {
        rejections =
            s.rejections
            ++ record {
              order_id = c.order.id;
              route_id = some c.route.id;
              reasons = selected_claim_conflict ∷ [];
            }
              ∷ [];
      }
      else if leb c.route.max_parallel (s.counts c.route.id)
      then s
      else record s { chosen = s.chosen ++ c ∷ []; counts = bump c.route.id s.counts }

  -- The second loop; its `break` leaves the state as it is.
  pub choose : ℕ → List (Assignment F) → Chosen → Chosen
  choose most [] s = s
  choose most (c ∷ rest) s =
      let later = choose most rest (consider c s) in if leb most (length s.chosen) then s else later

  module _ (subject_hash : Route → Text) (q : Request F) where
    -- The lists and the flag `produced` after one route of the order.
    pub apply_verdict : Verdict F subject_hash q → Gathered × Bool → Gathered × Bool
    apply_verdict (candidate a) (g, produced) =
        (record g { candidates = g.candidates ++ a ∷ [] }, true)
    apply_verdict (rejected r) (g, produced) = (reject r g, produced)

    pub try_routes : WorkOrder → List Text → Gathered × Bool → Gathered × Bool
    try_routes order [] acc = acc
    try_routes order (id ∷ rest) acc =
        try_routes order rest (apply_verdict (judge F subject_hash q order id) acc)

    -- `if not produced and not any(item.order_id == order.id for item in rejected)`.
    pub finish_order : WorkOrder → Gathered × Bool → Gathered
    finish_order order (g, produced) =
        if not produced && not (any (λ r. r.order_id == order.id) g.rejections)
        then reject (plain order (no_eligible_route ∷ [])) g
        else g

    pub try_order : WorkOrder → List Text → Gathered → Gathered
    try_order order ids g = finish_order order (try_routes order ids (g, false))

    -- The routes that an acknowledged order may still use.
    pub try_acknowledged : WorkOrder → List Text → Gathered → Gathered
    try_acknowledged order acknowledged g =
        let ids = keep (λ id. member id acknowledged) order.route_ids in
        if is_empty ids
        then reject (plain order (acknowledged_route_unavailable ∷ [])) g
        else try_order order ids g

    -- `acknowledged_routes` narrows the routes of an order that it names.
    pub next_order : WorkOrder → Option (List Text) → Gathered → Gathered
    next_order order none g = try_order order order.route_ids g
    next_order order (some acknowledged) g = try_acknowledged order acknowledged g

    -- The body of the loop over the orders.
    pub gather_order : WorkOrder → Gathered → Gathered
    gather_order order g =
        let reasons = order_reasons F subject_hash q order in
        if not (is_empty reasons)
        then reject (plain order reasons) g
        else next_order order (q.acknowledged_routes order.id) g

    pub gather : List WorkOrder → Gathered → Gathered
    gather [] g = g
    gather (order ∷ rest) g = gather rest (gather_order order g)

    unfoldable pub build_plan : Schedule
    unfolding gather gather_order next_order try_acknowledged try_order try_routes finish_order
        apply_verdict judge judge_found judge_route pair_reasons order_reasons route_by_id member
        orders_conflict choose consider bump before sort text_lt
    build_plan =
        let sorted_orders = sort (λ a b. text_lt a.id b.id) q.orders in
        let g = gather sorted_orders (record { candidates = []; rejections = [] }) in
        let start : Chosen = record {
          chosen = [];
          rejections = g.rejections;
          counts = q.route_active;
        } in
        let s = choose q.max_assignments (sort before g.candidates) start in
        record {
          observed_at = q.now;
          base_sha = q.base_sha;
          assignments = s.chosen;
          rejections = s.rejections;
        }
