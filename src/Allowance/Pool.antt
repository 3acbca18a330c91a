-- ===== src/Allowance/Pool.antt =====
-- `plan`, the loop over the tasks: it collects candidates, in the order in which they are looked at.
use idol_id_agents.Prelude.{
  ℕ, Text, Bool, ◌&&◌, ◌||◌, not, List, [], ◌∷◌, ◌++◌, ltb, nat_eq, text_lt, Result, ok, err,
}
use idol_id_agents.Scheduler.Floats.{Floats}
use idol_id_agents.Allowance.{Task, Payload}
use idol_id_agents.Allowance.Windows.{ProviderState}
use idol_id_agents.Allowance.Eligible.{
  TaskReason, ProviderReason, Candidate, reject_task, provider_rejection, window_for,
  candidate_score,
}

pub data PlanReason : Type 0 where
  unfit : TaskReason → PlanReason
  no_eligible_provider : List (Text × ProviderReason) → PlanReason
  conflicting : Text → PlanReason

pub record Refused : Type 0 where
  pub task_id : Text
  pub reason : PlanReason

module _ (F : Floats) where
  -- The lists `candidates` and `rejected`.
  pub record Pool : Type 0 where
    pub candidates : List (Candidate F)
    pub rejected : List Refused

  -- The body of the loop over the providers, behind the provider's test; `later` is the rest's.
  unfoldable pub offer :
      Task F
      → ProviderState F
      → ℕ
      → Result ProviderReason (Unit {0})
      → List (Candidate F) × List (Text × ProviderReason)
      → List (Candidate F) × List (Text × ProviderReason)
  unfolding window_for candidate_score
  offer task p now (ok u) (found, reasons) =
      (candidate_score F task p (window_for F task p now) now ∷ found, reasons)
  offer task p now (err reason) (found, reasons) = (found, (p.id, reason) ∷ reasons)

  -- The candidates and the reasons of one task, over the providers.
  unfoldable pub match_providers :
      Task F → List (ProviderState F) → ℕ → Bool → List (Candidate F) × List (Text × ProviderReason)
  unfolding provider_rejection offer
  match_providers task [] now paygo_approved = ([], [])
  match_providers task (p ∷ rest) now paygo_approved =
      offer task p now (provider_rejection F task p now paygo_approved)
        (match_providers task rest now paygo_approved)

  abbrev pub refuse : Text → PlanReason → Pool → Pool
  refuse id reason pool = record pool {
    rejected = pool.rejected ++ record { task_id = id; reason = reason } ∷ [];
  }

  -- `if matched == 0`.
  unfoldable pub add_matches :
      Task F → List (Candidate F) × List (Text × ProviderReason) → Pool → Pool
  add_matches task ([], reasons) pool = refuse task.id (no_eligible_provider reasons) pool
  add_matches task (c ∷ found, reasons) pool = record pool {
    candidates = pool.candidates ++ c ∷ found;
  }

  -- The body of the loop over the tasks, behind the task's test.
  unfoldable pub match_task :
      Payload F → List (ProviderState F) → Task F → Result TaskReason (Unit {0}) → Pool → Pool
  unfolding match_providers add_matches
  match_task payload providers task (err reason) pool = refuse task.id (unfit reason) pool
  match_task payload providers task (ok u) pool =
      add_matches task (match_providers task providers payload.now payload.paygo_approved) pool

  unfoldable pub add_task : Payload F → List (ProviderState F) → Task F → Pool → Pool
  unfolding match_task reject_task
  add_task payload providers task pool =
      match_task payload providers task (reject_task F task payload.current_sha) pool

  unfoldable pub add_tasks : Payload F → List (ProviderState F) → List (Task F) → Pool → Pool
  unfolding add_task
  add_tasks payload providers [] pool = pool
  add_tasks payload providers (task ∷ rest) pool =
      add_tasks payload providers rest (add_task payload providers task pool)

  -- The order of equal scores: by minutes, tokens, and the task's id.
  abbrev pub smaller : Candidate F → Candidate F → Bool
  smaller a b =
      ltb a.minutes b.minutes
      || (nat_eq a.minutes b.minutes
          && (ltb a.tokens b.tokens || (nat_eq a.tokens b.tokens && text_lt a.task.id b.task.id)))

  -- The sort key `(-score, minutes, tokens, id)`.
  unfoldable pub comes_before : Candidate F → Candidate F → Bool
  unfolding text_lt
  comes_before a b = F.lt b.score a.score || (not (F.lt a.score b.score) && smaller a b)
