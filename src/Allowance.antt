-- ===== src/Allowance.antt =====
-- scripts/allowance_plan.py: a planner of its own for tasks and providers with allowance windows. A
-- record's fields are what the readers of the source (`get`, `str`, `as_int`, `as_float`, truth) make of
-- the JSON fields; an absent text is empty, and numbers are natural where they are integers.
pub mod Windows
pub mod Eligible
pub mod Conflicts
pub mod Pool
pub mod Select
pub mod Plan
pub mod Unique
pub mod Apart
pub mod Chosen
pub mod Budget
pub mod Parallel
pub mod Answers
pub mod Offers
pub mod Sound
pub mod Laws
pub mod Answered
pub mod Ready
use idol_id_agents.Prelude.{
  ℕ, Text, text, Bool, true, false, not, List, [], ◌∷◌, map, is_empty, ◌==◌, Option, none, some,
  Result, ok, err, refuse_if, ◌>>=◌, ◌>>◌, if◌then◌else◌,
}
use idol_id_agents.Model.Atoms.{member}
use idol_id_agents.Scheduler.Floats.{Floats}

module _ (F : Floats) where
  pub record WindowInput : Type 0 where
    pub name : Text
    pub remaining_tokens : ℕ
    pub reset_at : Option ℕ
    pub period_seconds : ℕ
    pub remaining_percent : Option F.Float
    pub source : Text

  -- `quality` gives a role's fit, where it has one; it is `none` where it is a value that is no object.
  pub record ProviderInput : Type 0 where
    pub id : Text
    pub family : Text
    pub provider : Text
    pub enabled : Bool
    pub model : Text
    pub model_verified : Bool
    pub cost_class : Text
    pub quality : Option (Text → Option F.Float)
    pub max_parallel : Option ℕ
    pub premium : Bool
    pub telemetry_source : Text
    pub windows : List WindowInput

  pub record Task : Type 0 where
    pub id : Text
    pub state : Text
    pub blocked : Bool
    pub base_sha : Text
    pub value : F.Float
    pub estimated_tokens : ℕ
    pub estimated_input_tokens : ℕ
    pub estimated_output_tokens : ℕ
    pub estimated_minutes : Option ℕ
    pub evidence_path : Text
    pub stop_conditions : List Text
    pub paths : List Text
    pub semantic_boundaries : List Text
    pub allowed_provider_ids : List Text
    pub denied_provider_ids : List Text
    pub required_provider_family : Text
    pub implementer_family : Text
    pub requires_different_family : Bool
    pub role : Text
    pub minimum_role_fit : Option F.Float
    pub completion_probability : Option F.Float
    pub evidence_factor : Option F.Float
    pub priority_weight : Option F.Float
    pub premium_required : Bool
    pub exclusive_group : Text
    pub live_claim_verified : Bool
    pub work_order_sha : Text
    pub review_required : Bool

  -- The payload, with `observed_at` read as `now`.
  pub record Payload : Type 0 where
    pub schema : Text
    pub current_sha : Text
    pub paygo_approved : Bool
    pub now : ℕ
    pub providers : List ProviderInput
    pub tasks : List Task

pub data Label : Type 0 where
  provider_label task_label : Label
  -- The windows of a provider.
  window_label : Text → Label

pub data PayloadError : Type 0 where
  wrong_schema current_sha_missing : PayloadError
  id_missing : Label → PayloadError
  id_duplicate : Label → Text → PayloadError

-- `validate_unique`, and the loop over a provider's windows, on the names.
unfoldable pub validate_unique : Label → List Text → List Text → Result PayloadError (Unit {0})
unfolding member
validate_unique label seen [] = ok tt
validate_unique label seen (id ∷ rest) =
    let later = validate_unique label (id ∷ seen) rest in
    if is_empty id
    then err (id_missing label)
    else if member id seen
    then err (id_duplicate label id)
    else later

module _ (F : Floats) where
  unfoldable pub validate_windows : List (ProviderInput F) → Result PayloadError (Unit {0})
  unfolding validate_unique
  validate_windows [] = ok tt
  validate_windows (p ∷ rest) = do
    validate_unique (window_label p.id) [] (map (λ w. w.name) p.windows)
    validate_windows rest

  unfoldable pub validate_payload : Payload F → Result PayloadError (Unit {0})
  unfolding validate_unique validate_windows ◌==◌
  validate_payload payload = do
    refuse_if (not (payload.schema == text "idol.allowance.input.v1")) wrong_schema
    refuse_if (is_empty payload.current_sha) current_sha_missing
    validate_unique provider_label [] (map (λ p. p.id) payload.providers)
    validate_unique task_label [] (map (λ t. t.id) payload.tasks)
    validate_windows payload.providers
