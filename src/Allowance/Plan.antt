-- ===== src/Allowance/Plan.antt =====
-- `plan`: the assignments with their blockers, and the whole.
use idol_id_agents.Prelude.{
  ℕ, suc, Text, Bool, false, ◌&&◌, not, List, [], ◌∷◌, map, all, is_empty, ◌==◌, Option, none, some,
  Result, ok, ◌>>◌, if◌then◌else◌,
}
use idol_id_agents.Model.Atoms.{member}
use idol_id_agents.Scheduler.Floats.{Floats}
use idol_id_agents.Scheduler.Sort.{sort}
use idol_id_agents.Allowance.{Payload, PayloadError, validate_payload}
use idol_id_agents.Allowance.Windows.{
  Window, ProviderState, provider_of, remaining_by_window, source_of, tokens_in,
}
use idol_id_agents.Allowance.Eligible.{Candidate, trusted_telemetry}
use idol_id_agents.Allowance.Pool.{Pool, Refused, add_tasks, comes_before}
use idol_id_agents.Allowance.Select.{Selection, select}

pub data Blocker : Type 0 where
  telemetry_not_live : Text → Blocker
  live_claim_unverified work_order_sha_unverified model_identity_unverified : Blocker

module _ (F : Floats) where
  -- `assignment_execution_blockers`.
  abbrev pub note_blocker : Bool → Blocker → List Blocker → List Blocker
  note_blocker test blocker rest = if test then blocker ∷ rest else rest

  unfoldable pub assignment_execution_blockers : Candidate F → Text → List Blocker
  unfolding member ◌==◌
  assignment_execution_blockers c current_sha =
      let source = source_of F c.provider c.window in
      note_blocker (not (member source trusted_telemetry)) (telemetry_not_live source) (
        note_blocker (not c.task.live_claim_verified) live_claim_unverified (
          note_blocker (not (c.task.work_order_sha == current_sha)) work_order_sha_unverified
            (note_blocker (not c.provider.raw.model_verified) model_identity_unverified [])))

  -- The three numbers of `candidate` are rounded when the assignment is printed.
  pub record PlanAssignment : Type 0 where
    pub candidate : Candidate F
    pub order : ℕ
    pub task_id : Text
    pub provider_id : Text
    pub provider_family : Text
    pub model : Text
    pub role : Text
    pub estimated_tokens : ℕ
    pub estimated_minutes : ℕ
    pub window : Option Text
    pub window_reset_at : Option ℕ
    pub telemetry_source : Text
    pub base_sha : Text
    pub evidence_path : Text
    pub review_required : Bool
    pub execution_ready : Bool
    pub execution_blockers : List Blocker

  abbrev pub name_of : Option (Window F) → Option Text
  name_of none = none
  name_of (some w) = some w.name

  abbrev pub reset_of : Option (Window F) → Option ℕ
  reset_of none = none
  reset_of (some w) = w.reset_at

  -- `enumerate(selected, 1)`.
  unfoldable pub assignments_of : Text → ℕ → List (Candidate F) → List PlanAssignment
  unfolding assignment_execution_blockers
  assignments_of current_sha order [] = []
  assignments_of current_sha order (c ∷ rest) =
      let blockers = assignment_execution_blockers c current_sha in
      record {
        candidate = c;
        order = order;
        task_id = c.task.id;
        provider_id = c.provider.id;
        provider_family = c.provider.family;
        model = c.provider.raw.model;
        role = c.task.role;
        estimated_tokens = c.tokens;
        estimated_minutes = c.minutes;
        window = name_of c.window;
        window_reset_at = reset_of c.window;
        telemetry_source = source_of F c.provider c.window;
        base_sha = c.task.base_sha;
        evidence_path = c.task.evidence_path;
        review_required = c.task.review_required;
        execution_ready = is_empty blockers;
        execution_blockers = blockers;
      }
      ∷ assignments_of current_sha (suc order) rest

  pub record AllowancePlan : Type 0 where
    pub observed_at : ℕ
    pub current_sha : Text
    pub paygo_approved : Bool
    pub automatic_dispatch : Bool
    pub execution_ready : Bool
    pub assignments : List PlanAssignment
    pub rejected : List Refused
    pub providers : List (ProviderState F)
    pub remaining : Text → Text → ℕ
    pub assigned : Text → List Text

  -- The value of the provider that has the id; the ids of a valid payload differ.
  unfoldable pub value_of : (ProviderState F → ℕ) → List (ProviderState F) → Text → ℕ
  unfolding ◌==◌
  value_of f [] id = 0
  value_of f (p ∷ rest) id = let others = value_of f rest id in if p.id == id then f p else others

  -- What the providers hold at first.
  abbrev pub initial_remaining : List (ProviderState F) → Text → Text → ℕ
  initial_remaining providers id name = value_of (λ p. remaining_by_window F p name) providers id

  abbrev pub pool_of : Payload F → Pool F
  pool_of payload =
      add_tasks F payload (map (provider_of F) payload.providers) payload.tasks
        (record { candidates = []; rejected = [] })

  -- The second loop of a payload, over the sorted candidates.
  unfoldable pub selection_of : Payload F → Selection F
  unfolding add_tasks select comes_before sort value_of tokens_in provider_of
  selection_of payload =
      let pool = pool_of payload in
      select F (sort (comes_before F) pool.candidates) (record {
        selected = [];
        selected_task_ids = [];
        parallel = λ id. 0;
        remaining = initial_remaining (map (provider_of F) payload.providers);
        assigned = λ id. [];
        markers = [];
        rejected = pool.rejected;
      })

  -- `plan`.
  unfoldable pub plan : Payload F → Result PayloadError AllowancePlan
  unfolding validate_payload selection_of assignments_of provider_of
  plan payload = do
    validate_payload F payload
    let s = selection_of payload
    let assignments = assignments_of payload.current_sha 1 s.selected
    ok (record {
      observed_at = payload.now;
      current_sha = payload.current_sha;
      paygo_approved = payload.paygo_approved;
      automatic_dispatch = false;
      execution_ready = not (is_empty assignments) && all (λ a. a.execution_ready) assignments;
      assignments = assignments;
      rejected = s.rejected;
      providers = map (provider_of F) payload.providers;
      remaining = s.remaining;
      assigned = s.assigned;
    })
