-- ===== src/Tests/Usages.antt =====
-- A route whose adapter must answer, and one whose adapter has no output.
use idol_id_agents.Prelude.{
  ◌*◌, Text, text, true, false, ◌≡◌, refl, [], ◌∷◌, none, some, All, Any, end, err,
}
use idol_id_agents.Model.{Route, second}
use idol_id_agents.Usage.{UsageObservation, UsageError, Outside, observe_usage, refresh_routes}
use idol_id_agents.Usage.Measured.{MustBe, IsMeasured, refresh_routes-IsMeasured}
use idol_id_agents.Tests.Samples.{route}

abbrev asked : Route
asked = record route { usage_command = text "usage" ∷ []; usage_required = true }

abbrev seen : UsageObservation
seen = record {
  schema = text "idol.fleet.usage.v1";
  route_subject = text "subject";
  provider = text "p";
  model = text "m";
  billing = text "local";
  observed_at = 5 * second;
  windows = [];
  extra_usage_enabled = false;
  paygo_enabled = false;
  purchased_credits_selected = false;
  topup_selected = false;
  reset_redeemed = false;
}

abbrev outside : Text → Outside
outside output = record {
  environ = λ name. none;
  run = λ command env timeout. some (0, output);
  format_map = λ values part. some part;
  loads = λ s. some end;
  from_mapping = λ value. some seen;
  subject_hash = λ r. text "subject";
}

measured :
    (refresh_routes (outside (text "{}")) (6 * second) (asked ∷ [])).0
    ≡ record asked { allowance = [] } ∷ []
unfolding refresh_routes
measured = refl

silent :
    (refresh_routes (outside []) (6 * second) (asked ∷ [])).0
    ≡ record asked { enabled = false } ∷ []
unfolding refresh_routes
silent = refl

late : observe_usage (outside (text "{}")) asked (400 * second) ≡ err UsageError.stale
unfolding observe_usage
late = refl

refresh_routes-IsMeasured_example :
    All
      (λ r.
        MustBe (outside (text "{}")) r
        → Any (IsMeasured (outside (text "{}")) (6 * second) r) (asked ∷ []))
      (refresh_routes (outside (text "{}")) (6 * second) (asked ∷ [])).0
refresh_routes-IsMeasured_example =
    refresh_routes-IsMeasured (outside (text "{}")) (6 * second) (asked ∷ [])
