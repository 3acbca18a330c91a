-- ===== src/Tests/Plans.antt =====
-- The planner on the sample request.
use idol_id_agents.Prelude.{◌+◌, ◌≤◌, text, ◌≡◌, refl, [], ◌∷◌, map, All, Pairwise, length}
use idol_id_agents.Scheduler.Plan.{build_plan}
use idol_id_agents.Scheduler.Plan.Capacity.{uses}
use idol_id_agents.Scheduler.Plan.Gather.{IsCandidate}
use idol_id_agents.Scheduler.Plan.Laws.{
  Clear, IsAnswered, build_plan_sound, build_plan-apart, build_plan-le-parallel, build_plan-answers,
}
use idol_id_agents.Scheduler.Plan.Once.{Differs, build_plan-once}
use idol_id_agents.Model.Orders.{check_order}
use idol_id_agents.Prelude.{ok}
use idol_id_agents.Tests.Samples.{floats, subject, request}

-- The urgent order and the one beside it are planned; the one inside the first is not.
plan_run :
    map (λ a. a.order.id) (build_plan floats subject request).assignments ≡ text "a" ∷ text "c" ∷ []
unfolding build_plan idol_id_agents.Policy.verdict_reasons idol_id_agents.Model.Proofs.proof_valid
    idol_id_agents.Policy.reviews_own_family idol_id_agents.Overlap.path_overlap
    idol_id_agents.Overlap.semantic_overlap
plan_run = refl

build_plan_sound_example :
    All (IsCandidate floats subject request) (build_plan floats subject request).assignments
build_plan_sound_example = build_plan_sound floats subject request

build_plan-apart_example :
    (length (build_plan floats subject request).assignments ≤ 3)
    × Pairwise (Clear floats subject request) (build_plan floats subject request).assignments
build_plan-apart_example = build_plan-apart floats subject request

build_plan-le-parallel_example :
    All
      (λ a.
        0 + uses floats a.route.id (build_plan floats subject request).assignments
        ≤ a.route.max_parallel)
      (build_plan floats subject request).assignments
build_plan-le-parallel_example = build_plan-le-parallel floats subject request

build_plan-answers_example : All (IsAnswered floats subject request) request.orders
build_plan-answers_example = build_plan-answers floats subject request

orders_checked : All (λ o. check_order o ≡ ok tt) request.orders
unfolding check_order idol_id_agents.Model.Atoms.is_atom idol_id_agents.Model.Atoms.is_sha
    idol_id_agents.Model.Paths.relative_path_ok idol_id_agents.Model.Paths.semantic_target_ok
orders_checked = (refl, (refl, (refl, tt)))

build_plan-once_example :
    Pairwise (Differs floats subject request) (build_plan floats subject request).assignments
build_plan-once_example = build_plan-once floats subject request orders_checked
