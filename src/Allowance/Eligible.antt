-- ===== src/Allowance/Eligible.antt =====
-- Which task may be done at all, which provider may do it, and what the pair is worth.
use idol_id_agents.Prelude.{
  ℕ, ◌+◌, Text, text, Bool, true, false, ◌&&◌, ◌||◌, not, List, [], ◌∷◌, is_empty, ◌==◌, leb,
  Option, none, some, or_else, Result, refuse_if, ◌>>◌, if◌then◌else◌,
}
use idol_id_agents.Model.Atoms.{member}
use idol_id_agents.Scheduler.Floats.{Floats}
use idol_id_agents.Allowance.{Task}
use idol_id_agents.Allowance.Windows.{
  Window, ProviderState, clamp, zero_f, one_f, or_text, urgency, role_fit, best_window,
}

pub data TaskReason : Type 0 where
  state_not_productive_ready blocked base_sha_mismatch nonpositive_value : TaskReason
  missing_token_estimate missing_time_estimate missing_evidence_path : TaskReason
  missing_stop_conditions missing_path_boundary missing_semantic_boundary : TaskReason

pub data ProviderReason : Type 0 where
  provider_disabled missing_exact_model provider_not_allowed provider_denied : ProviderReason
  provider_family_mismatch implementer_not_independent paygo_forbidden : ProviderReason
  role_fit_below_floor no_window_can_finish : ProviderReason

-- `FREE`, `PURCHASED` and `TRUSTED_TELEMETRY`.
abbrev pub free : List Text
free = text "local" ∷ text "free" ∷ []

abbrev pub purchased : List Text
purchased = text "paygo" ∷ text "purchased_credit" ∷ text "topup" ∷ []

abbrev pub trusted_telemetry : List Text
trusted_telemetry = text "live_provider" ∷ text "local_telemetry" ∷ []

module _ (F : Floats) where
  open F use {Float, lt, of_ratio, mul, div}

  -- `task_tokens`.
  unfoldable pub task_tokens : Task F → ℕ
  task_tokens task =
      if leb 1 task.estimated_tokens
      then task.estimated_tokens
      else task.estimated_input_tokens + task.estimated_output_tokens

  -- `reject_task`; the task passes as `ok`.
  unfoldable pub reject_task : Task F → Text → Result TaskReason (Unit {0})
  unfolding ◌==◌ task_tokens
  reject_task task current_sha = do
    refuse_if (not (task.state == text "productive_ready")) state_not_productive_ready
    refuse_if task.blocked blocked
    refuse_if (is_empty task.base_sha || not (task.base_sha == current_sha)) base_sha_mismatch
    refuse_if (not (lt (zero_f F) task.value)) nonpositive_value
    refuse_if (not (leb 1 (task_tokens task))) missing_token_estimate
    refuse_if (not (leb 1 (or_else task.estimated_minutes 0))) missing_time_estimate
    refuse_if (is_empty task.evidence_path) missing_evidence_path
    refuse_if (is_empty task.stop_conditions) missing_stop_conditions
    refuse_if (is_empty task.paths) missing_path_boundary
    refuse_if (is_empty task.semantic_boundaries) missing_semantic_boundary

  -- `as_int(task.get("estimated_minutes"), 1)`.
  abbrev pub minutes_of : Task F → ℕ
  minutes_of task = or_else task.estimated_minutes 1

  abbrev pub role_of : Task F → Text
  role_of task = or_text F task.role (text "default")

  abbrev pub is_free : ProviderState F → Bool
  is_free p = member p.cost_class free

  abbrev pub lacks_window : Option (Window F) → Bool
  lacks_window none = true
  lacks_window (some w) = false

  -- `provider_rejection`; the pair passes as `ok`.
  unfoldable pub provider_rejection :
      Task F → ProviderState F → ℕ → Bool → Result ProviderReason (Unit {0})
  unfolding ◌==◌ member task_tokens best_window
  provider_rejection task p now paygo_approved = do
    refuse_if (not p.raw.enabled) provider_disabled
    refuse_if (is_empty p.raw.model) missing_exact_model
    refuse_if
        (not (is_empty task.allowed_provider_ids) && not (member p.id task.allowed_provider_ids))
        provider_not_allowed
    refuse_if (member p.id task.denied_provider_ids) provider_denied
    refuse_if
        (not (is_empty task.required_provider_family)
          && not (p.family == task.required_provider_family))
        provider_family_mismatch
    refuse_if
        (task.requires_different_family
          && not (is_empty task.implementer_family)
          && (p.family == task.implementer_family))
        implementer_not_independent
    refuse_if (member p.cost_class purchased && not paygo_approved) paygo_forbidden
    refuse_if (lt (role_fit F p (role_of task)) (or_else task.minimum_role_fit (of_ratio 55 100)))
        role_fit_below_floor
    refuse_if
        (not (is_free p) && lacks_window (best_window F p (task_tokens task) (minutes_of task) now))
        no_window_can_finish

  -- The window that a candidate takes: none of a free provider.
  unfoldable pub window_for : Task F → ProviderState F → ℕ → Option (Window F)
  unfolding best_window task_tokens member
  window_for task p now =
      if is_free p then none else best_window F p (task_tokens task) (minutes_of task) now

  pub record Candidate : Type 0 where
    pub task : Task F
    pub provider : ProviderState F
    pub window : Option (Window F)
    pub score : Float
    pub tokens : ℕ
    pub minutes : ℕ
    pub fit : Float
    pub urgency : Float

  abbrev pub urgency_of : Option (Window F) → ℕ → Float
  urgency_of none now = one_f F
  urgency_of (some w) now = urgency F w now

  -- `candidate_score`.
  unfoldable pub candidate_score : Task F → ProviderState F → Option (Window F) → ℕ → Candidate
  unfolding urgency task_tokens member
  candidate_score task p window now =
      let tokens = task_tokens task in
      let fit = role_fit F p (role_of task) in
      let completion =
        clamp F (or_else task.completion_probability (of_ratio 8 10)) (of_ratio 5 100) (one_f F) in
      let evidence =
        clamp F (or_else task.evidence_factor (one_f F)) (of_ratio 1 10) (of_ratio 15 10) in
      let pressing = urgency_of window now in
      let priority =
        clamp F (or_else task.priority_weight (one_f F)) (of_ratio 1 10) (of_ratio 5 1) in
      let premium_penalty =
        if p.raw.premium && not task.premium_required then of_ratio 6 10 else one_f F in
      let local_bonus =
        if is_free p && not task.premium_required then of_ratio 115 100 else one_f F in
      let weighted =
        mul
          (mul (mul (mul (mul (mul (mul task.value fit) completion) evidence) pressing) priority)
            premium_penalty)
          local_bonus in
      record {
        task = task;
        provider = p;
        window = window;
        score = div weighted (of_ratio tokens 1);
        tokens = tokens;
        minutes = minutes_of task;
        fit = fit;
        urgency = pressing;
      }
