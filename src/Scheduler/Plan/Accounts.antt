-- ===== src/Scheduler/Plan/Accounts.antt =====
-- The whole first loop of `build_plan`: one order after the other.
use mathlib.Core.List.{append-nil, append_assoc}
use idol_id_agents.Prelude.{
  Text, Bool, true, false, ◌≡◌, refl, sym, ap, ◌∙◌, inl, inr, List, [], ◌∷◌, ◌++◌, keep, All, Any,
  All-map, All-keep, All-keep_test, Any-append_left, Bool-cases, Option, some, none, is_empty, any,
  ◌==◌,
}
use idol_id_agents.Model.{Route, WorkOrder}
use idol_id_agents.Model.Atoms.{member, member_self}
use idol_id_agents.Scheduler.Floats.{Floats}
use idol_id_agents.Scheduler.Eligible.{
  Assignment, Request, Rejection, order_reasons, candidate, rejected, Verdict, judge,
}
use idol_id_agents.Scheduler.Plan.{
  Gathered, reject, try_routes, finish_order, try_order, try_acknowledged, gather_order, gather,
  apply_verdict, next_order,
}
use idol_id_agents.Scheduler.Plan.Candidates.{IsReady, IsReady-reasons}
use idol_id_agents.Scheduler.Plan.Gather.{
  IsCandidate, MayTry, Accounted, Kept, rejected-Accounted, try_order-Kept,
}

module _ (F : Floats) (subject_hash : Route → Text) (q : Request F) where
  module _ (order : WorkOrder) (g : Gathered F) (listed : Any (λ o. o ≡ order) q.orders)
      (good : All (IsCandidate F subject_hash q) g.candidates) where
    narrow :
        (routes ids : List Text)
        → IsReady F subject_hash q order
        → q.acknowledged_routes order.id ≡ some routes
        → All (λ id. member id order.route_ids ≡ true) ids
        → All (λ id. member id routes ≡ true) ids
        → All (MayTry F subject_hash q order) ids
    narrow routes [] ready known requested allowed = tt
    narrow routes (id ∷ ids) ready known requested allowed = (
      record {
        listed = listed;
        ready = ready;
        requested = requested.0;
        acknowledged = λ others e.
            let same : routes ≡ others = cc (sym known ∙ e) in
            ap (member id) (sym same) ∙ allowed.0;
      },
      narrow routes ids ready known requested.1 allowed.1,
    )

    acknowledged-Kept :
        (routes : List Text)
        → IsReady F subject_hash q order
        → q.acknowledged_routes order.id ≡ some routes
        → Kept F subject_hash q order (try_acknowledged F subject_hash q order routes g)
    unfolding try_acknowledged
    acknowledged-Kept routes ready known =
        elim (Bool-cases (is_empty (keep (λ id. member id routes) order.route_ids))) [
          | inl unavailable ↦
              rw unavailable (rejected-Accounted F subject_hash q order _ g refl good)
          | inr usable ↦ rw usable (
              try_order-Kept F subject_hash q order _ g
                (narrow routes _ ready known
                  (All-keep _ (λ id. member id routes) order.route_ids
                    (member_self order.route_ids))
                  (All-keep_test (λ id. member id routes) order.route_ids))
                good)
        ]

    unrestricted :
        (ids : List Text)
        → IsReady F subject_hash q order
        → q.acknowledged_routes order.id ≡ none
        → All (λ id. member id order.route_ids ≡ true) ids
        → All (MayTry F subject_hash q order) ids
    unrestricted ids ready open' requested =
        All-map
          (λ id listed_id. record {
            listed = listed;
            ready = ready;
            requested = listed_id;
            acknowledged = λ others e. cc (sym open' ∙ e);
          })
          ids requested

    next-Kept :
        (acknowledged : Option (List Text))
        → q.acknowledged_routes order.id ≡ acknowledged
        → IsReady F subject_hash q order
        → Kept F subject_hash q order (next_order F subject_hash q order acknowledged g)
    unfolding next_order
    next-Kept none known ready =
        try_order-Kept F subject_hash q order order.route_ids g
          (unrestricted order.route_ids ready known (member_self order.route_ids)) good
    next-Kept (some routes) known ready = acknowledged-Kept routes ready known

    gather_order-Kept : Kept F subject_hash q order (gather_order F subject_hash q order g)
    unfolding gather_order
    gather_order-Kept = elim (Bool-cases (is_empty (order_reasons F subject_hash q order))) [
      | inl clear ↦ rw clear (next-Kept _ refl (IsReady-reasons F subject_hash q order clear))
      | inr held ↦ rw held (rejected-Accounted F subject_hash q order _ g refl good)
    ]

  -- A further order only adds candidates and rejections.
  record Grows (g h : Gathered F) : Type 0 where
    candidates : List (Assignment F)
    rejections : List Rejection
    more_candidates : h.candidates ≡ g.candidates ++ candidates
    more_rejections : h.rejections ≡ g.rejections ++ rejections

  Grows-refl : (g : Gathered F) → Grows g g
  Grows-refl g = record {
    candidates = [];
    rejections = [];
    more_candidates = sym (append-nil g.candidates);
    more_rejections = sym (append-nil g.rejections);
  }

  Grows-trans : {g h k : Gathered F} → Grows g h → Grows h k → Grows g k
  Grows-trans {g} a b = record {
    candidates = a.candidates ++ b.candidates;
    rejections = a.rejections ++ b.rejections;
    more_candidates =
        b.more_candidates
        ∙ ap (λ l. l ++ b.candidates) a.more_candidates
        ∙ append_assoc g.candidates a.candidates b.candidates;
    more_rejections =
        b.more_rejections
        ∙ ap (λ l. l ++ b.rejections) a.more_rejections
        ∙ append_assoc g.rejections a.rejections b.rejections;
  }

  reject-Grows : (r : Rejection) (g : Gathered F) → Grows g (reject F r g)
  reject-Grows r g = record {
    candidates = [];
    rejections = r ∷ [];
    more_candidates = sym (append-nil g.candidates);
    more_rejections = refl;
  }

  apply-Grows :
      (v : Verdict F subject_hash q) (acc : Gathered F × Bool)
      → Grows acc.0 (apply_verdict F subject_hash q v acc).0
  unfolding apply_verdict
  apply-Grows (candidate a) (g, produced) = record {
    candidates = a ∷ [];
    rejections = [];
    more_candidates = refl;
    more_rejections = sym (append-nil g.rejections);
  }
  apply-Grows (rejected r) (g, produced) = reject-Grows r g

  routes-Grows :
      (order : WorkOrder) (ids : List Text) (acc : Gathered F × Bool)
      → Grows acc.0 (try_routes F subject_hash q order ids acc).0
  unfolding try_routes
  routes-Grows order [] acc = Grows-refl acc.0
  routes-Grows order (id ∷ rest) acc =
      Grows-trans (apply-Grows (judge F subject_hash q order id) acc) (
        routes-Grows order rest
          (apply_verdict F subject_hash q (judge F subject_hash q order id) acc))

  finish-Grows :
      (order : WorkOrder) (g : Gathered F) (produced : Bool)
      → Grows g (finish_order F subject_hash q order (g, produced))
  unfolding finish_order
  finish-Grows order g true = Grows-refl g
  finish-Grows order g false = elim (Bool-cases (any (λ r. r.order_id == order.id) g.rejections)) [
    | inl seen ↦ rw seen (Grows-refl g)
    | inr unseen ↦ rw unseen (reject-Grows _ g)
  ]

  try_order-Grows :
      (order : WorkOrder) (ids : List Text) (g : Gathered F)
      → Grows g (try_order F subject_hash q order ids g)
  unfolding try_order
  try_order-Grows order ids g =
      let acc = try_routes F subject_hash q order ids (g, false) in
      Grows-trans (routes-Grows order ids (g, false)) (finish-Grows order acc.0 acc.1)

  next-Grows :
      (order : WorkOrder) (acknowledged : Option (List Text)) (g : Gathered F)
      → Grows g (next_order F subject_hash q order acknowledged g)
  unfolding next_order try_acknowledged
  next-Grows order none g = try_order-Grows order order.route_ids g
  next-Grows order (some routes) g =
      elim (Bool-cases (is_empty (keep (λ id. member id routes) order.route_ids))) [
        | inl unavailable ↦ rw unavailable (reject-Grows _ g)
        | inr usable ↦ rw usable (try_order-Grows order _ g)
      ]

  gather_order-Grows :
      (order : WorkOrder) (g : Gathered F) → Grows g (gather_order F subject_hash q order g)
  unfolding gather_order
  gather_order-Grows order g = elim (Bool-cases (is_empty (order_reasons F subject_hash q order))) [
    | inl clear ↦ rw clear (next-Grows order _ g)
    | inr held ↦ rw held (reject-Grows _ g)
  ]

  gather-Grows :
      (orders : List WorkOrder) (g : Gathered F) → Grows g (gather F subject_hash q orders g)
  unfolding gather
  gather-Grows [] g = Grows-refl g
  gather-Grows (order ∷ rest) g =
      Grows-trans (gather_order-Grows order g)
        (gather-Grows rest (gather_order F subject_hash q order g))

  Accounted-Grows :
      {g h : Gathered F} (order : WorkOrder)
      → Grows g h
      → Accounted F subject_hash q order g
      → Accounted F subject_hash q order h
  Accounted-Grows {g} order w (inl p) =
      inl (rw w.more_candidates (Any-append_left _ g.candidates w.candidates p))
  Accounted-Grows {g} order w (inr p) =
      inr (rw w.more_rejections (Any-append_left _ g.rejections w.rejections p))

  -- The first loop over any orders of the request.
  pub gather_sound :
      (orders : List WorkOrder) (g : Gathered F)
      → All (λ order. Any (λ o. o ≡ order) q.orders) orders
      → All (IsCandidate F subject_hash q) g.candidates
      → (let h = gather F subject_hash q orders g in
          All (IsCandidate F subject_hash q) h.candidates
          × All (λ order. Accounted F subject_hash q order h) orders)
  unfolding gather
  gather_sound [] g listed good = (good, tt)
  gather_sound (order ∷ rest) g listed good =
      let kept = gather_order-Kept order g listed.0 good in
      let g' = gather_order F subject_hash q order g in
      let (all_good, accounted) = gather_sound rest g' listed.1 kept.good in
      (all_good, (Accounted-Grows order (gather-Grows rest g') kept.accounted, accounted))
