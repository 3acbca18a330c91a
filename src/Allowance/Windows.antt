-- ===== src/Allowance/Windows.antt =====
-- `Window`, `ProviderState` as it is at first, and the reading of windows.
use idol_id_agents.Prelude.{
  ℕ, ◌-◌, ◌*◌, Text, text, Bool, true, false, ◌&&◌, not, List, [], ◌∷◌, is_empty, ◌==◌, ltb, keep,
  Option, none, some, or_else, if◌then◌else◌,
}
use idol_id_agents.Model.{second}
use idol_id_agents.Scheduler.Floats.{Floats, fmax, fmin}
use idol_id_agents.Allowance.{WindowInput, ProviderInput}

module _ (F : Floats) where
  open F use {Float, lt, of_ratio, add, sub, mul, div}

  -- `clamp`.
  abbrev pub clamp : Float → Float → Float → Float
  clamp value low high = fmax F low (fmin F high value)

  abbrev pub zero_f : Float
  zero_f = of_ratio 0 1

  abbrev pub one_f : Float
  one_f = of_ratio 1 1

  pub record Window : Type 0 where
    pub name : Text
    pub remaining_tokens : ℕ
    pub reset_at : Option ℕ
    pub period_seconds : Option ℕ
    pub remaining_percent : Option Float
    pub source : Text

  abbrev pub positive : ℕ → Option ℕ
  positive n = if ltb 0 n then some n else none

  abbrev pub or_text : Text → Text → Text
  or_text t d = if is_empty t then d else t

  -- `Window.from_json`.
  unfoldable pub window_of : WindowInput F → Window
  window_of raw = record {
    name = raw.name;
    remaining_tokens = raw.remaining_tokens;
    reset_at = raw.reset_at;
    period_seconds = positive raw.period_seconds;
    remaining_percent = elim raw.remaining_percent [
      | none ↦ none
      | some percent ↦ some (clamp percent zero_f (of_ratio 100 1))
    ];
    source = or_text raw.source (text "unsupported");
  }

  -- `max(0.0, (self.reset_at - now).total_seconds())`; times are microseconds.
  abbrev pub seconds_left : Window → ℕ → Option Float
  seconds_left w now = elim w.reset_at [
    | none ↦ none
    | some reset ↦ some (of_ratio (reset - now) second)
  ]

  unfoldable pub elapsed_fraction : Window → ℕ → Option Float
  elapsed_fraction w now = elim (seconds_left w now) [
    | none ↦ none
    | some left ↦ elim w.period_seconds [
      | none ↦ none
      | some period ↦ some (clamp (sub one_f (div left (of_ratio period 1))) zero_f one_f)
    ]
  ]

  -- `urgency`, of the elapsed fraction.
  unfoldable pub pressure : Window → Float → Float
  pressure w elapsed =
      let final_quarter =
        clamp (div (sub elapsed (of_ratio 75 100)) (of_ratio 25 100)) zero_f one_f in
      let remaining_fraction : Float = elim w.remaining_percent [
        | none ↦ of_ratio 5 10
        | some percent ↦ div percent (of_ratio 100 1)
      ] in
      let waste_pressure = clamp (sub remaining_fraction (sub one_f elapsed)) zero_f one_f in
      add (add one_f (mul (of_ratio 15 10) final_quarter)) (mul (of_ratio 15 10) waste_pressure)

  unfoldable pub urgency : Window → ℕ → Float
  unfolding elapsed_fraction pressure
  urgency w now = elim (elapsed_fraction w now) [ none ↦ one_f | some elapsed ↦ pressure w elapsed ]

  -- `provider_family`.
  unfoldable pub provider_family : ProviderInput F → Text
  provider_family raw = or_text raw.family (or_text raw.provider (or_text raw.id (text "unknown")))

  pub record ProviderState : Type 0 where
    pub raw : ProviderInput F
    pub id : Text
    pub family : Text
    pub cost_class : Text
    pub windows : List Window

  unfoldable pub windows_of : List (WindowInput F) → List Window
  unfolding window_of
  windows_of [] = []
  windows_of (w ∷ rest) = window_of w ∷ windows_of rest

  -- `ProviderState.from_json`.
  unfoldable pub provider_of : ProviderInput F → ProviderState
  unfolding provider_family windows_of
  provider_of raw = record {
    raw = raw;
    id = raw.id;
    family = provider_family raw;
    cost_class = or_text raw.cost_class (text "unknown");
    windows = windows_of raw.windows;
  }

  -- `{window.name: window.remaining_tokens for window in windows}.get(name, 0)`: of equal names the
  -- last counts.
  unfoldable pub tokens_in : List Window → Text → Option ℕ
  unfolding ◌==◌
  tokens_in [] name = none
  tokens_in (w ∷ rest) name = elim (tokens_in rest name) [
    | some n ↦ some n
    | none ↦ if w.name == name then some w.remaining_tokens else none
  ]

  abbrev pub remaining_by_window : ProviderState → Text → ℕ
  remaining_by_window p name = or_else (tokens_in p.windows name) 0

  abbrev pub quality_of : Option (Text → Option Float) → Text → Float
  quality_of none role = zero_f
  quality_of (some fits) role =
      clamp (or_else (fits role) (or_else (fits (text "default")) zero_f)) zero_f one_f

  -- `role_fit`.
  abbrev pub role_fit : ProviderState → Text → Float
  role_fit p role = quality_of p.raw.quality role

  -- The window has the tokens and the time.
  unfoldable pub can_finish : ProviderState → ℕ → ℕ → ℕ → Window → Bool
  unfolding tokens_in
  can_finish p tokens minutes now w =
      not (ltb (remaining_by_window p w.name) tokens) && elim (seconds_left w now) [
        | none ↦ true
        | some left ↦ not (lt left (of_ratio (minutes * 60) 1))
      ]

  -- A window without a reset comes last.
  abbrev pub resets_before : Option ℕ → Option ℕ → Bool
  resets_before none b = false
  resets_before (some a) none = true
  resets_before (some a) (some b) = ltb a b

  -- `min(candidates, key=…)` keeps the first of equal ones.
  unfoldable pub earliest : Window → List Window → Window
  earliest w [] = w
  earliest w (v ∷ rest) =
      let kept = earliest w rest in
      let taken = earliest v rest in if resets_before v.reset_at w.reset_at then taken else kept

  abbrev pub earliest? : List Window → Option Window
  earliest? [] = none
  earliest? (w ∷ rest) = some (earliest w rest)

  -- `best_window`.
  unfoldable pub best_window : ProviderState → ℕ → ℕ → ℕ → Option Window
  unfolding can_finish earliest
  best_window p tokens minutes now = earliest? (keep (can_finish p tokens minutes now) p.windows)

  -- `telemetry_source`.
  abbrev pub source_of : ProviderState → Option Window → Text
  source_of p (some w) = w.source
  source_of p none = or_text p.raw.telemetry_source (text "unsupported")
