-- ===== src/Usage.antt =====
-- fleet_control/usage.py: before planning, the adapters of the routes say what their allowances hold.
-- A route whose adapter must answer and does not is switched off.
pub mod Measured
use idol_id_agents.Prelude.{
  ℕ, ◌+◌, ◌-◌, ◌*◌, Text, text, Bool, true, false, ◌&&◌, ◌||◌, not, List, [], ◌∷◌, ◌++◌, reverse,
  keep, is_empty, ◌==◌, nat_eq, leb, ltb, Option, none, some, Result, ok, err, refuse_if, ◌>>=◌,
  ◌>>◌, Fields, if◌then◌else◌,
}
use idol_id_agents.Strings.{strip}
use idol_id_agents.Overlap.{take}
use idol_id_agents.Model.{
  BillingClass, included, paygo, purchased, topup, unknown, AllowanceWindow, Route, second,
}

pub record UsageObservation : Type 0 where
  pub schema : Text
  pub route_subject : Text
  pub provider : Text
  pub model : Text
  pub billing : Text
  pub observed_at : ℕ
  pub windows : List AllowanceWindow
  pub extra_usage_enabled : Bool
  pub paygo_enabled : Bool
  pub purchased_credits_selected : Bool
  pub topup_selected : Bool
  pub reset_redeemed : Bool

pub data UsageError : Type 0 where
  no_adapter unknown_placeholder not_completed no_json_object misshapen : UsageError
  absent_environment : Text → UsageError
  adapter_returned : ℕ → UsageError
  usage_schema another_route another_model another_billing from_the_future stale : UsageError
  forbidden_surface no_windows : UsageError

-- The names and values of an environment or of the placeholders.
abbrev pub Pairs : Type 0
Pairs = List (Text × Text)

abbrev pub billing_value : BillingClass → Text
billing_value BillingClass.local = text "local"
billing_value included = text "included"
billing_value paygo = text "paygo"
billing_value purchased = text "purchased"
billing_value topup = text "topup"
billing_value unknown = text "unknown"

abbrev pub is_included : BillingClass → Bool
is_included included = true
is_included _ = false

-- `_BASE_ENV`.
abbrev pub base_env : List Text
base_env =
    text "PATH"
    ∷ text "HOME"
    ∷ text "LANG"
    ∷ text "LC_ALL"
    ∷ text "TMPDIR"
    ∷ text "SHELL"
    ∷ text "USER"
    ∷ text "LOGNAME"
    ∷ []

-- Where `splitlines` breaks a text. It takes `\r\n` for one break; as two, they make one more line
-- that is blank, and blank lines are dropped.
abbrev pub is_break : ℕ → Bool
is_break c =
    (leb 10 c && leb c 13)
    || (leb 28 c && leb c 30)
    || nat_eq c 0x85
    || nat_eq c 0x2028
    || nat_eq c 0x2029

unfoldable pub break_lines : Text → Text × List Text
break_lines [] = ([], [])
break_lines (c ∷ s) =
    let (line, lines) = break_lines s in
    if is_break c then ([], line ∷ lines) else (c ∷ line, lines)

-- `[line for line in text.splitlines() if line.strip()]`.
unfoldable pub filled_lines : Text → List Text
unfolding break_lines strip
filled_lines s =
    let (line, lines) = break_lines s in keep (λ l. not (is_empty (strip l))) (line ∷ lines)

-- `os.environ`, the adapter's process (its code and output, where it completes), `str.format_map`,
-- `json.loads` (a mapping, where it gives one), `UsageObservation.from_mapping` (where it does not
-- raise), and `Route.subject_hash`.
pub record Outside : Type 0 where
  pub environ : Text → Option Text
  pub run : List Text → Pairs → ℕ → Option (ℕ × Text)
  pub format_map : Pairs → Text → Option Text
  pub loads : Text → Option Fields
  pub from_mapping : Fields → Option UsageObservation
  pub subject_hash : Route → Text

module _ (o : Outside) where
  abbrev pub named : Text → Option Text → Pairs → Pairs
  named name none rest = rest
  named name (some value) rest = (name, value) ∷ rest

  unfoldable pub present : List Text → Pairs
  present [] = []
  present (name ∷ rest) = named name (o.environ name) (present rest)

  abbrev pub with_value : Text → Option Text → Result UsageError Pairs → Result UsageError Pairs
  with_value name none rest = err (absent_environment name)
  with_value name (some value) rest = rest >>= λ env. ok ((name, value) ∷ env)

  unfoldable pub required_env : List Text → Result UsageError Pairs
  required_env [] = ok []
  required_env (name ∷ rest) = with_value name (o.environ name) (required_env rest)

  -- `_environment`; of equal names the last one counts.
  unfoldable pub environment : Route → Result UsageError Pairs
  unfolding present required_env
  environment route = do
    required ← required_env route.usage_auth_env
    ok (
        present base_env
        ++ required
        ++ (text "IDOL_FLEET_NO_MODEL_INFERENCE", text "1")
          ∷ ((text "IDOL_FLEET_NO_PAYGO", text "1") ∷ []))

  -- The loop of `_parse_json`.
  unfoldable pub first_object : List Text → Result UsageError Fields
  first_object [] = err no_json_object
  first_object (candidate ∷ rest) =
      let later = first_object rest in
      if is_empty candidate
      then later
      else elim (o.loads candidate) [ some value ↦ ok value | none ↦ later ]

  -- `_parse_json`.
  unfoldable pub parse_json : Text → Result UsageError Fields
  unfolding first_object filled_lines strip
  parse_json s = first_object (strip s ∷ reverse (filled_lines s))

  unfoldable pub format_parts : Pairs → List Text → Result UsageError (List Text)
  format_parts values [] = ok []
  format_parts values (part ∷ rest) = elim (o.format_map values part) [
    | none ↦ err unknown_placeholder
    | some p ↦ format_parts values rest >>= λ later. ok (p ∷ later)
  ]

  abbrev pub required_value : {A : Type 0} → Option A → UsageError → Result UsageError A
  required_value none e = err e
  required_value (some a) e = ok a

  -- The tests of `observe_usage` on the observation.
  unfoldable pub check_observation : Route → ℕ → UsageObservation → Result UsageError (Unit {0})
  unfolding ◌==◌
  check_observation route now u = do
    refuse_if (not (u.schema == text "idol.fleet.usage.v1")) usage_schema
    refuse_if (not (u.route_subject == o.subject_hash route)) another_route
    refuse_if (not ((u.provider == route.provider) && (u.model == route.model))) another_model
    refuse_if (not (u.billing == billing_value route.billing)) another_billing
    refuse_if (ltb (now + 60 * second) u.observed_at) from_the_future
    refuse_if (ltb (u.observed_at + route.usage_max_age_seconds * second) now) stale
    refuse_if
        (u.extra_usage_enabled || u.paygo_enabled || u.purchased_credits_selected
          || u.topup_selected || u.reset_redeemed)
        forbidden_surface
    refuse_if (is_included route.billing && is_empty u.windows) no_windows

  abbrev pub placeholders : Route → Pairs
  placeholders route =
      (text "route", route.id)
      ∷ ((text "route_subject", o.subject_hash route)
          ∷ ((text "provider", route.provider) ∷ ((text "model", route.model) ∷ [])))

  -- `observe_usage`.
  unfoldable pub observe_usage : Route → ℕ → Result UsageError UsageObservation
  unfolding format_parts environment parse_json check_observation
  observe_usage route now = do
    refuse_if (is_empty route.usage_command) no_adapter
    command ← format_parts (placeholders route) route.usage_command
    env ← environment route
    (code, output) ← required_value (o.run command env route.usage_timeout_seconds) not_completed
    refuse_if (not (nat_eq code 0)) (adapter_returned code)
    value ← parse_json (take 1000000 output)
    u ← required_value (o.from_mapping value) misshapen
    check_observation route now u
    ok u

  -- A fact of `refresh_routes`: what was observed, or why not and whether it had to be.
  pub record UsageFact : Type 0 where
    pub route_id : Text
    pub observed : Result UsageError UsageObservation
    pub required : Bool

  unfoldable pub refreshed : Route → Result UsageError UsageObservation → Route
  refreshed route (ok u) = record route { allowance = u.windows }
  refreshed route (err e) = if route.usage_required then record route { enabled = false } else route

  -- The body of the loop.
  unfoldable pub refresh_route : ℕ → Route → Route × List UsageFact
  unfolding observe_usage refreshed
  refresh_route now route =
      if not route.enabled || is_empty route.usage_command then (route, []) else (
        refreshed route (observe_usage route now),
        record {
          route_id = route.id;
          observed = observe_usage route now;
          required = route.usage_required;
        }
            ∷ [],
      )

  -- `refresh_routes`.
  unfoldable pub refresh_routes : ℕ → List Route → List Route × List UsageFact
  unfolding refresh_route
  refresh_routes now [] = ([], [])
  refresh_routes now (route ∷ rest) =
      let one = refresh_route now route in
      let later = refresh_routes now rest in (one.0 ∷ later.0, one.1 ++ later.1)
