-- ===== src/Model/Routes.antt =====
-- `Route.__post_init__`, and the duplicate check of `load_routes`.
use idol_id_agents.Prelude.{
  Text, text, Bool, ◌||◌, not, List, [], ◌∷◌, ◌++◌, map, all, any, is_empty, ltb, length, Result,
  ok, first_refusal, refuse_if, ◌>>◌,
}
use idol_id_agents.Strings.{slash, starts_with}
use idol_id_agents.Model.{Route}
use idol_id_agents.Model.Atoms.{is_atom, is_env_name, member, distinct}

pub data RouteError : Type 0 where
  invalid_route_id invalid_provider invalid_provider_family invalid_runtime : RouteError
  model_bounds command_required unsupported_parser timeout_bounds parallel_bounds : RouteError
  usage_timeout_bounds usage_age_bounds invalid_env_name relative_subject_path : RouteError
  duplicate_subject_path duplicate_route : RouteError

abbrev parsers : List Text
parsers = text "openclaw-json" ∷ text "hermes-usage" ∷ text "plain-json" ∷ []

-- The tests in the source's order, each with its refusal.
unfoldable pub route_refusals : Route → List (Bool × RouteError)
route_refusals r =
    (not (is_atom r.id), invalid_route_id)
    ∷ (not (is_atom r.provider), invalid_provider)
    ∷ (not (is_atom r.provider_family), invalid_provider_family)
    ∷ (not (is_atom r.runtime), invalid_runtime)
    ∷ (is_empty r.model || ltb 240 (length r.model), model_bounds)
    ∷ (is_empty r.command || any is_empty r.command, command_required)
    ∷ (not (member r.parser parsers), unsupported_parser)
    ∷ (ltb r.timeout_seconds 10 || ltb 172800 r.timeout_seconds, timeout_bounds)
    ∷ (ltb r.max_parallel 1 || ltb 64 r.max_parallel, parallel_bounds)
    ∷ (ltb r.usage_timeout_seconds 1 || ltb 300 r.usage_timeout_seconds, usage_timeout_bounds)
    ∷ (ltb r.usage_max_age_seconds 15 || ltb 86400 r.usage_max_age_seconds, usage_age_bounds)
    ∷ (not (all is_env_name (r.auth_env ++ r.usage_auth_env)), invalid_env_name)
    ∷ (not (all (starts_with (slash ∷ [])) r.proof_subject_files), relative_subject_path)
    ∷ (not (distinct r.proof_subject_files), duplicate_subject_path)
    ∷ []

unfoldable pub check_route : Route → Result RouteError (Unit {0})
unfolding route_refusals first_refusal
check_route r = first_refusal (route_refusals r)

unfoldable pub check_each : List Route → Result RouteError (Unit {0})
unfolding check_route
check_each [] = ok tt
check_each (r ∷ rest) = do check_route r; check_each rest

-- `load_routes`, from the routes as their mappings give them.
unfoldable pub load_routes : List Route → Result RouteError (List Route)
unfolding check_each distinct
load_routes routes = do
  check_each routes
  refuse_if (not (distinct (map (λ r. r.id) routes))) duplicate_route
  ok routes
