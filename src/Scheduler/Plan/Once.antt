-- ===== src/Scheduler/Plan/Once.antt =====
-- A plan over checked work orders runs no order twice.
use mathlib.Core.Path.{subst}
use idol_id_agents.Prelude.{
  Text, true, ◌≡◌, ◌≢◌, sym, ap, ◌∙◌, List, [], ◌∷◌, All, All-map, All-any, Pairwise, false≢true,
  ok,
}
use idol_id_agents.Model.{Route}
use idol_id_agents.Model.Orders.{check_order}
use idol_id_agents.Model.Admitted.{IsAdmitted, check_order-IsAdmitted}
use idol_id_agents.Scheduler.{orders_conflict}
use idol_id_agents.Scheduler.Conflict.{orders_conflict_self}
use idol_id_agents.Scheduler.Floats.{Floats}
use idol_id_agents.Scheduler.Eligible.{Assignment, Request}
use idol_id_agents.Scheduler.Plan.{build_plan}
use idol_id_agents.Scheduler.Plan.Gather.{IsCandidate}
use idol_id_agents.Scheduler.Plan.Laws.{Clear, build_plan_sound, build_plan-apart}

module _ (F : Floats) (subject_hash : Route → Text) (q : Request F) where
  -- Two assignments of different orders.
  abbrev pub Differs : Assignment F → Assignment F → Type 0
  Differs a b = a.order ≢ b.order

  Clear-Differs :
      (a b : Assignment F) → IsAdmitted a.order → Clear F subject_hash q a b → Differs a b
  Clear-Differs a b admitted clear e =
      let meets : orders_conflict a.order b.order ≡ true =
        ap (orders_conflict a.order) (sym e) ∙ orders_conflict_self a.order admitted in
      false≢true (sym clear.0 ∙ meets)

  All-Differs :
      (xs : List (Assignment F))
      → All (λ a. IsAdmitted a.order) xs
      → Pairwise (Clear F subject_hash q) xs
      → Pairwise Differs xs
  All-Differs [] h k = tt
  All-Differs (a ∷ xs) h k =
      (All-map (λ b c. Clear-Differs a b h.0 c) xs k.0, All-Differs xs h.1 k.1)

  candidate-IsAdmitted :
      All (λ o. check_order o ≡ ok tt) q.orders
      → (a : Assignment F) → IsCandidate F subject_hash q a
      → IsAdmitted a.order
  candidate-IsAdmitted checked a c =
      let (o, passed, same) = All-any _ _ q.orders checked c.listed in
      subst IsAdmitted same (check_order-IsAdmitted o passed)

  -- If every order of the request passes the checks of its constructor, then no two assignments of
  -- the plan have the same order.
  pub build_plan-once :
      All (λ o. check_order o ≡ ok tt) q.orders
      → Pairwise Differs (build_plan F subject_hash q).assignments
  build_plan-once checked =
      let plan = build_plan F subject_hash q in
      All-Differs plan.assignments
        (All-map (candidate-IsAdmitted checked) plan.assignments
          (build_plan_sound F subject_hash q))
        (build_plan-apart F subject_hash q).1
