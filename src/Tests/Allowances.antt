-- ===== src/Tests/Allowances.antt =====
-- Two tasks and a provider with one window, planned.
use idol_id_agents.Prelude.{
  ℕ, ◌+◌, ◌*◌, ◌≤◌, ◌↔◌, map, Text, text, Bool, true, false, ◌≡◌, refl, List, [], ◌∷◌, is_empty,
  All, none, some, ok,
}
use idol_id_agents.Model.{second}
use idol_id_agents.Allowance.{WindowInput, ProviderInput, Task, Payload}
use idol_id_agents.Allowance.Windows.{remaining_by_window}
use idol_id_agents.Allowance.Plan.{AllowancePlan, plan}
use idol_id_agents.Allowance.Select.{max_parallel}
use idol_id_agents.Allowance.Budget.{drawn_total}
use idol_id_agents.Allowance.Parallel.{provider_uses}
use idol_id_agents.Allowance.Sound.{IsSound}
use idol_id_agents.Allowance.Laws.{chosen_of, plan-IsSound, plan-balanced, plan-le-parallel}
use idol_id_agents.Allowance.Ready.{IsReady, plan-IsReady}
use idol_id_agents.Allowance.Answered.{IsAnswered, plan-IsAnswered}
use idol_id_agents.Tests.Samples.{floats}

abbrev week : WindowInput floats
week = record {
  name = text "week";
  remaining_tokens = 10;
  reset_at = some (7200 * second);
  period_seconds = 604800;
  remaining_percent = none;
  source = text "live_provider";
}

abbrev worker : ProviderInput floats
worker = record {
  id = text "worker";
  family = text "a";
  provider = [];
  enabled = true;
  model = text "m";
  model_verified = true;
  cost_class = text "subscription";
  quality = some (λ role. some 900);
  max_parallel = some 2;
  premium = false;
  telemetry_source = [];
  windows = week ∷ [];
}

abbrev task_at : Text → Text → ℕ → Task floats
task_at id path tokens = record {
  id = id;
  state = text "productive_ready";
  blocked = false;
  base_sha = text "c0";
  value = 5000;
  estimated_tokens = tokens;
  estimated_input_tokens = 0;
  estimated_output_tokens = 0;
  estimated_minutes = some 1;
  evidence_path = text "e";
  stop_conditions = text "s" ∷ [];
  paths = path ∷ [];
  semantic_boundaries = id ∷ [];
  allowed_provider_ids = [];
  denied_provider_ids = [];
  required_provider_family = [];
  implementer_family = [];
  requires_different_family = false;
  role = [];
  minimum_role_fit = none;
  completion_probability = none;
  evidence_factor = none;
  priority_weight = none;
  premium_required = false;
  exclusive_group = [];
  live_claim_verified = true;
  work_order_sha = text "c0";
  review_required = false;
}

abbrev request : Payload floats
request = record {
  schema = text "idol.allowance.input.v1";
  current_sha = text "c0";
  paygo_approved = false;
  now = 0;
  providers = worker ∷ [];
  tasks = task_at (text "t") (text "x") 3 ∷ task_at (text "u") (text "./y/") 4 ∷ [];
}

abbrev result_of : {E A : Type 0} → A → idol_id_agents.Prelude.Result E A → A
result_of d (ok a) = a
result_of d (idol_id_agents.Prelude.err e) = d

abbrev ids_of : AllowancePlan floats → List Text
ids_of r = map (λ c. c.task.id) (chosen_of floats r)

abbrev no_plan : AllowancePlan floats
no_plan = record {
  observed_at = 0;
  current_sha = [];
  paygo_approved = false;
  automatic_dispatch = false;
  execution_ready = false;
  assignments = [];
  rejected = [];
  providers = [];
  remaining = λ id name. 0;
  assigned = λ id. [];
}

abbrev planned : AllowancePlan floats
planned = result_of no_plan (plan floats request)

plan_ids : ids_of planned ≡ text "t" ∷ text "u" ∷ []
unfolding plan
plan_ids = refl

plan_left : planned.remaining (text "worker") (text "week") ≡ 3
unfolding plan
plan_left = refl

planned_ok : plan floats request ≡ ok planned
unfolding plan
planned_ok = refl

plan-IsSound_example : All (IsSound floats request) (chosen_of floats planned)
plan-IsSound_example = plan-IsSound floats request planned planned_ok

plan-balanced_example :
    All
      (λ p.
        (name : Text)
        → planned.remaining p.id name + drawn_total floats p.id name (chosen_of floats planned)
          ≡ remaining_by_window floats p name)
      planned.providers
plan-balanced_example = plan-balanced floats request planned planned_ok

plan-le-parallel_example :
    All
      (λ p. provider_uses floats p.id (chosen_of floats planned) ≤ max_parallel floats p)
      planned.providers
plan-le-parallel_example = plan-le-parallel floats request planned planned_ok

plan-IsReady_example : (planned.execution_ready ≡ true) ↔ (
    (is_empty (chosen_of floats planned) ≡ false)
    × All (IsReady floats (text "c0")) (chosen_of floats planned))
plan-IsReady_example = plan-IsReady floats request planned planned_ok

plan-IsAnswered_example : All (IsAnswered floats request planned) request.tasks
plan-IsAnswered_example = plan-IsAnswered floats request planned planned_ok
