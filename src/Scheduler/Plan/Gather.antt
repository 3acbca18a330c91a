-- ===== src/Scheduler/Plan/Gather.antt =====
-- The first loop of `build_plan`: its candidates are eligible, and no order is lost.
use mathlib.Core.Path.{subst}
use idol_id_agents.Prelude.{
  Any-map, false≢true, Text, Bool, true, false, ◌≡◌, refl, sym, ap, ◌∙◌, ◌⊎◌, inl, inr, List, [],
  ◌∷◌, ◌==◌, eq_iff, any, any-true, All, Any, All-append, Any-append_right, Bool-cases,
  Option-cases, if◌then◌else◌, some, none,
}
use idol_id_agents.Model.{Route, WorkOrder}
use idol_id_agents.Model.Atoms.{member}
use idol_id_agents.Scheduler.Floats.{Floats}
use idol_id_agents.Scheduler.Eligible.{
  judge_found, Assignment, Request, Rejection, Verdict, candidate, rejected, assign, judge,
  judge_route, route_by_id,
}
use idol_id_agents.Scheduler.Plan.{
  Gathered, reject, try_routes, finish_order, try_order, apply_verdict,
}
use idol_id_agents.Scheduler.Plan.Candidates.{
  IsReady, IsEligible, IsEligible-reasons, route_by_id-id,
}

module _ (F : Floats) (subject_hash : Route → Text) (q : Request F) where
  pub record IsCandidate (a : Assignment F) : Type 0 where
    pub listed : Any (λ o. o ≡ a.order) q.orders
    pub ready : IsReady F subject_hash q a.order
    pub named : route_by_id q.routes a.route.id ≡ some a.route
    pub requested : member a.route.id a.order.route_ids ≡ true
    pub acknowledged :
        (routes : List Text)
        → q.acknowledged_routes a.order.id ≡ some routes
        → member a.route.id routes ≡ true
    pub eligible : IsEligible F subject_hash q a.order a.route
    pub scored : a ≡ assign F subject_hash q a.order a.route

  -- What the loop knows of an order when it tries the route `id` for it.
  pub record MayTry (order : WorkOrder) (id : Text) : Type 0 where
    pub listed : Any (λ o. o ≡ order) q.orders
    pub ready : IsReady F subject_hash q order
    pub requested : member id order.route_ids ≡ true
    pub acknowledged :
        (routes : List Text)
        → q.acknowledged_routes order.id ≡ some routes
        → member id routes ≡ true

  abbrev Judged : Type 0
  Judged = Verdict F subject_hash q

  if-candidate :
      (test : Bool) (x : Assignment F) (r : Rejection) {a : Assignment F}
      → ◌≡◌ {A = Judged} (if test then candidate x else rejected r) (candidate a)
      → (test ≡ true) × (a ≡ x)
  if-candidate true x r h = (refl, cc)
  if-candidate false x r h = cc

  judge_route-candidate :
      (order : WorkOrder) (route : Route) {a : Assignment F}
      → judge_route F subject_hash q order route ≡ candidate a
      → IsEligible F subject_hash q order route × (a ≡ assign F subject_hash q order route)
  unfolding judge_route
  judge_route-candidate order route h =
      let (clear, same) = if-candidate _ (assign F subject_hash q order route) _ h in
      (IsEligible-reasons F subject_hash q order route clear, same)

  assign-IsCandidate :
      (order : WorkOrder) (id : Text) (route : Route)
      → MayTry order id
      → route_by_id q.routes id ≡ some route
      → IsEligible F subject_hash q order route
      → IsCandidate (assign F subject_hash q order route)
  unfolding assign
  assign-IsCandidate order id route m found e =
      let same = route_by_id-id q.routes id found in
      record {
        listed = m.listed;
        ready = m.ready;
        named = ap (route_by_id q.routes) same ∙ found;
        requested = ap (λ i. member i order.route_ids) same ∙ m.requested;
        acknowledged = λ routes known. ap (λ i. member i routes) same ∙ m.acknowledged routes known;
        eligible = e;
        scored = refl;
      }

  judge-some :
      (order : WorkOrder) (id : Text) (route : Route)
      → route_by_id q.routes id ≡ some route
      → judge F subject_hash q order id ≡ judge_route F subject_hash q order route
  unfolding judge judge_found
  judge-some order id route found = ap (judge_found F subject_hash q order id) found

  judge-none :
      (order : WorkOrder) (id : Text) {a : Assignment F}
      → route_by_id q.routes id ≡ none
      → judge F subject_hash q order id ≡ candidate a
      → ⊥
  unfolding judge judge_found
  judge-none order id missing h = cc (ap (judge_found F subject_hash q order id) missing)

  order-assign :
      (order : WorkOrder) (route : Route) → (assign F subject_hash q order route).order ≡ order
  unfolding assign
  order-assign order route = refl

  judge-candidate :
      (order : WorkOrder) (id : Text) {a : Assignment F}
      → MayTry order id
      → judge F subject_hash q order id ≡ candidate a
      → IsCandidate a × (a.order ≡ order)
  judge-candidate order id m h = elim (Option-cases (route_by_id q.routes id)) [
    | inl missing ↦ absurd (judge-none order id missing h)
    | inr (route, found) ↦
        let (e, same) =
          judge_route-candidate order route (sym (judge-some order id route found) ∙ h) in
        (
          subst IsCandidate (sym same) (assign-IsCandidate order id route m found e),
          ap (λ b. b.order) same ∙ order-assign order route,
        )
  ]

  -- Each verdict keeps the candidates good, and the flag stands for one of the order.
  record Progress (order : WorkOrder) (acc : Gathered F × Bool) : Type 0 where
    pub good : All IsCandidate acc.0.candidates
    flagged : acc.1 ≡ true → Any (λ a. a.order ≡ order) acc.0.candidates

  apply-Progress :
      (order : WorkOrder) (v : Judged) (g : Gathered F) (produced : Bool)
      → ((a : Assignment F) → v ≡ candidate a → IsCandidate a × (a.order ≡ order))
      → Progress order (g, produced)
      → Progress order (apply_verdict F subject_hash q v (g, produced))
  unfolding apply_verdict
  apply-Progress order (candidate a) g produced sound h =
      let (good, same) = sound a refl in
      record {
        good = All-append IsCandidate g.candidates (a ∷ []) h.good (good, tt);
        flagged = λ e. Any-append_right _ g.candidates (a ∷ []) (inl same);
      }
  apply-Progress order (rejected r) g produced sound h = record {
    good = h.good;
    flagged = h.flagged;
  }

  try_routes-Progress :
      (order : WorkOrder) (ids : List Text) (acc : Gathered F × Bool)
      → All (MayTry order) ids
      → Progress order acc
      → Progress order (try_routes F subject_hash q order ids acc)
  unfolding try_routes
  try_routes-Progress order [] acc ms h = h
  try_routes-Progress order (id ∷ rest) acc ms h = try_routes-Progress order rest _ ms.1 (
      apply-Progress order (judge F subject_hash q order id) acc.0 acc.1
        (λ a e. judge-candidate order id ms.0 e) h)

  -- The order has a candidate, or a rejection of its id.
  abbrev pub Accounted : WorkOrder → Gathered F → Type 0
  Accounted order g =
      Any (λ a. a.order ≡ order) g.candidates ⊎ Any (λ r. r.order_id ≡ order.id) g.rejections

  pub record Kept (order : WorkOrder) (g : Gathered F) : Type 0 where
    pub good : All IsCandidate g.candidates
    pub accounted : Accounted order g

  pub rejected-Accounted :
      (order : WorkOrder) (r : Rejection) (g : Gathered F)
      → r.order_id ≡ order.id
      → All IsCandidate g.candidates
      → Kept order (reject F r g)
  rejected-Accounted order r g e h = record {
    good = h;
    accounted = inr (Any-append_right _ g.rejections (r ∷ []) (inl e));
  }

  finish-Kept :
      (order : WorkOrder) (g : Gathered F) (produced : Bool)
      → Progress order (g, produced)
      → Kept order (finish_order F subject_hash q order (g, produced))
  unfolding finish_order
  finish-Kept order g true h = record { good = h.good; accounted = inl (h.flagged refl) }
  finish-Kept order g false h = elim (Bool-cases (any (λ r. r.order_id == order.id) g.rejections)) [
    | inl seen ↦ rw seen (record {
      good = h.good;
      accounted = inr (
          Any-map (λ r e. (eq_iff r.order_id order.id).0 e) g.rejections
            (any-true _ g.rejections seen));
    })
    | inr unseen ↦ rw unseen (rejected-Accounted order _ g refl h.good)
  ]

  pub try_order-Kept :
      (order : WorkOrder) (ids : List Text) (g : Gathered F)
      → All (MayTry order) ids
      → All IsCandidate g.candidates
      → Kept order (try_order F subject_hash q order ids g)
  unfolding try_order
  try_order-Kept order ids g ms h =
      let acc = try_routes F subject_hash q order ids (g, false) in
      finish-Kept order acc.0 acc.1 (
        try_routes-Progress order ids (g, false) ms
          (record { good = h; flagged = λ e. absurd (false≢true e) }))
