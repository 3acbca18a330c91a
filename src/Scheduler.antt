-- ===== src/Scheduler.antt =====
-- fleet_control/scheduler.py: which work orders run next, and on which routes. The scores are
-- floating point numbers, which `Floats` stands for; `Score` holds their computation, `Eligible` the
-- tests of one order on one route, `Plan` the two loops of `build_plan`.
pub mod Floats
pub mod Sort
pub mod Score
pub mod Conflict
pub mod Eligible
pub mod Plan
use idol_id_agents.Prelude.{Bool, Text, ◌||◌, any}
use idol_id_agents.Overlap.{path_overlap, semantic_overlap}
use idol_id_agents.Model.{WorkOrder}

unfoldable pub orders_conflict : WorkOrder → WorkOrder → Bool
orders_conflict left right =
    any (λ a. any (λ b. path_overlap a b) right.path_claims) left.path_claims
    || any (λ a. any (λ b. semantic_overlap a b) right.semantic_claims) left.semantic_claims
