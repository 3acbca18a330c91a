-- ===== src/Usage/Measured.antt =====
-- A route that must be measured stays on only with an observation that passes the tests.
use mathlib.Core.Path.{subst}
use idol_id_agents.Prelude.{
  ℕ, ◌+◌, ◌*◌, ◌≤◌, Text, Option, none, some, Fields, text, Bool, true, false, ◌≡◌, refl, sym, ap,
  ◌∙◌, ◌&&◌, ◌||◌, not, not-false, or_false, and_true, List, [], ◌∷◌, is_empty, All, All-map, Any,
  ◌==◌, eq_iff, ltb, nat_eq, Result, ok, err, refuse_if, refuse_if-ok, >>=-ok, >>-ok, ok-injective,
  false≢true, inl, inr, Bool-cases, arith, ltb-false,
}
use idol_id_agents.Overlap.{take}
use idol_id_agents.Model.{Route, second}
use idol_id_agents.Usage.{
  UsageObservation, UsageError, Outside, billing_value, is_included, format_parts, placeholders,
  Pairs, environment, required_value, parse_json, check_observation, observe_usage, refreshed,
  refresh_route, refresh_routes,
}

module _ (o : Outside) where
  -- What the tests of an observation check.
  pub record IsAccepted (route : Route) (now : ℕ) (u : UsageObservation) : Type 0 where
    pub schema : u.schema ≡ text "idol.fleet.usage.v1"
    pub subject : u.route_subject ≡ o.subject_hash route
    pub provider : u.provider ≡ route.provider
    pub model : u.model ≡ route.model
    pub billing : u.billing ≡ billing_value route.billing
    pub not_ahead : u.observed_at ≤ now + 60 * second
    pub recent : now ≤ u.observed_at + route.usage_max_age_seconds * second
    pub no_paygo : u.paygo_enabled ≡ false
    pub no_credits : u.purchased_credits_selected ≡ false
    pub no_topup : u.topup_selected ≡ false
    pub no_reset : u.reset_redeemed ≡ false
    pub no_extra : u.extra_usage_enabled ≡ false
    pub windowed : is_included route.billing ≡ true → is_empty u.windows ≡ false

  windows_needed :
      (included empty : Bool) → (included && empty) ≡ false → included ≡ true → empty ≡ false
  windows_needed included empty h e = ground (arith, h, e)

  refused-not : (test : Bool) (e : UsageError) → refuse_if test e ≡ ok tt → test ≡ false
  refused-not true e h = cc
  refused-not false e h = refl

  check_observation-IsAccepted :
      (route : Route) (now : ℕ) (u : UsageObservation)
      → check_observation o route now u ≡ ok tt
      → IsAccepted route now u
  unfolding check_observation
  check_observation-IsAccepted route now u h =
      let (schema, h₁) = refuse_if-ok (not (u.schema == text "idol.fleet.usage.v1")) _ _ h in
      let (subject, h₂) = refuse_if-ok (not (u.route_subject == o.subject_hash route)) _ _ h₁ in
      let (who, h₃) =
        refuse_if-ok (not ((u.provider == route.provider) && (u.model == route.model))) _ _ h₂ in
      let (billing, h₄) = refuse_if-ok (not (u.billing == billing_value route.billing)) _ _ h₃ in
      let (ahead, h₅) = refuse_if-ok (ltb (now + 60 * second) u.observed_at) _ _ h₄ in
      let (old, h₆) =
        refuse_if-ok (ltb (u.observed_at + route.usage_max_age_seconds * second) now) _ _ h₅ in
      let (surface, h₇) =
        refuse_if-ok
          (u.extra_usage_enabled || u.paygo_enabled || u.purchased_credits_selected
            || u.topup_selected || u.reset_redeemed)
          _ _ h₆ in
      let lacking = refused-not (is_included route.billing && is_empty u.windows) _ h₇ in
      let names =
        and_true (u.provider == route.provider) (u.model == route.model) (not-false _ who) in
      let (four, reset) =
        or_false
          (u.extra_usage_enabled || u.paygo_enabled || u.purchased_credits_selected
            || u.topup_selected)
          u.reset_redeemed surface in
      let (three, topup) =
        or_false (u.extra_usage_enabled || u.paygo_enabled || u.purchased_credits_selected)
          u.topup_selected four in
      let (two, credits) =
        or_false (u.extra_usage_enabled || u.paygo_enabled) u.purchased_credits_selected three in
      let (extra, paygo) = or_false u.extra_usage_enabled u.paygo_enabled two in
      record {
        schema = (eq_iff u.schema (text "idol.fleet.usage.v1")).0 (not-false _ schema);
        subject = (eq_iff u.route_subject (o.subject_hash route)).0 (not-false _ subject);
        provider = (eq_iff u.provider route.provider).0 names.0;
        model = (eq_iff u.model route.model).0 names.1;
        billing = (eq_iff u.billing (billing_value route.billing)).0 (not-false _ billing);
        not_ahead = ltb-false _ _ ahead;
        recent = ltb-false _ _ old;
        no_paygo = paygo;
        no_credits = credits;
        no_topup = topup;
        no_reset = reset;
        no_extra = extra;
        windowed = windows_needed (is_included route.billing) (is_empty u.windows) lacking;
      }

  -- The adapter of a route has reported an observation: its command, filled in for the route, ran to
  -- its end with the code 0, in the environment of the route and within its time, and the object in
  -- its output is the observation.
  pub record IsReported (route : Route) (u : UsageObservation) : Type 0 where
    pub command : List Text
    pub filled : format_parts o (placeholders o route) route.usage_command ≡ ok command
    pub env : Pairs
    pub set : environment o route ≡ ok env
    pub output : Text
    pub ran : o.run command env route.usage_timeout_seconds ≡ some (0, output)
    pub value : Fields
    pub parsed : parse_json o (take 1000000 output) ≡ ok value
    pub shaped : o.from_mapping value ≡ some u

  required_value-ok :
      {A : Type 0} (found : Option A) (e : UsageError) {a : A}
      → required_value o found e ≡ ok a
      → found ≡ some a
  required_value-ok none e h = cc
  required_value-ok (some b) e h = ap some (ok-injective h)

  is_zero : (n : ℕ) → not (nat_eq n 0) ≡ false → n ≡ 0
  is_zero n h = ground arith

  pub observe_usage-IsAccepted :
      (route : Route) (now : ℕ) (u : UsageObservation)
      → observe_usage o route now ≡ ok u
      → IsAccepted route now u × IsReported route u
  unfolding observe_usage
  observe_usage-IsAccepted route now u h =
      let (adapted, h₁) = refuse_if-ok (is_empty route.usage_command) _ _ h in
      let (command, e₂, h₂) =
        >>=-ok (format_parts o (placeholders o route) route.usage_command) _ h₁ in
      let (env, e₃, h₃) = >>=-ok (environment o route) _ h₂ in
      let (done, e₄, h₄) =
        >>=-ok
          (required_value o (o.run command env route.usage_timeout_seconds)
            UsageError.not_completed)
          _ h₃ in
      let (clean, h₅) = refuse_if-ok (not (nat_eq done.0 0)) _ _ h₄ in
      let (value, e₆, h₆) = >>=-ok (parse_json o (take 1000000 done.1)) _ h₅ in
      let (v, e₇, h₇) =
        >>=-ok (required_value o (o.from_mapping value) UsageError.misshapen) _ h₆ in
      let (checked, h₈) = >>-ok (check_observation o route now v) _ h₇ in
      let same = ok-injective h₈ in
      (
        subst (IsAccepted route now) same (check_observation-IsAccepted route now v checked),
        record {
          command = command;
          filled = e₂;
          env = env;
          set = e₃;
          output = done.1;
          ran = required_value-ok _ _ e₄ ∙ ap (λ n. some (n, done.1)) (is_zero done.0 clean);
          value = value;
          parsed = e₆;
          shaped = required_value-ok _ _ e₇ ∙ ap some same;
        },
      )

  -- The route behind a refreshed one: its windows are those of an observation that its adapter has
  -- reported and that passes the tests.
  pub record IsMeasured (now : ℕ) (r route : Route) : Type 0 where
    pub observation : UsageObservation
    pub reported : IsReported route observation
    pub accepted : IsAccepted route now observation
    pub same : r ≡ record route { allowance = observation.windows }

  -- A route that is on, has an adapter and must be measured.
  abbrev pub MustBe : Route → Type 0
  MustBe r = (r.enabled ≡ true) × (is_empty r.usage_command ≡ false) × (r.usage_required ≡ true)

  refreshed-off :
      (route : Route) (e : UsageError)
      → route.usage_required ≡ true
      → (refreshed o route (err e)).enabled ≡ false
  unfolding refreshed
  refreshed-off route e required = rw required refl

  refreshed-same :
      (route : Route) (e : UsageError)
      → route.usage_required ≡ false
      → refreshed o route (err e) ≡ route
  unfolding refreshed
  refreshed-same route e optional = rw optional refl

  refreshed-IsMeasured :
      (now : ℕ) (route : Route) (found : Result UsageError UsageObservation)
      → observe_usage o route now ≡ found
      → MustBe (refreshed o route found)
      → IsMeasured now (refreshed o route found) route
  unfolding refreshed
  refreshed-IsMeasured now route (ok u) e h = record {
    observation = u;
    reported = (observe_usage-IsAccepted route now u e).1;
    accepted = (observe_usage-IsAccepted route now u e).0;
    same = refl;
  }
  refreshed-IsMeasured now route (err reason) e h = elim (Bool-cases route.usage_required) [
    | inl required ↦ absurd (false≢true (sym (refreshed-off route reason required) ∙ h.0))
    | inr optional ↦
        let same = refreshed-same route reason optional in
        absurd (false≢true (sym optional ∙ ap (λ r. r.usage_required) (sym same) ∙ h.2))
  ]

  left_out :
      (enabled empty : Bool) → enabled ≡ true → empty ≡ false → (not enabled || empty) ≡ false
  left_out enabled empty e k = rw (e, k) refl

  refresh_route-left :
      (now : ℕ) (route : Route)
      → (not route.enabled || is_empty route.usage_command) ≡ true
      → (refresh_route o now route).0 ≡ route
  unfolding refresh_route
  refresh_route-left now route h = rw h refl

  refresh_route-asked :
      (now : ℕ) (route : Route)
      → (not route.enabled || is_empty route.usage_command) ≡ false
      → (refresh_route o now route).0 ≡ refreshed o route (observe_usage o route now)
  unfolding refresh_route
  refresh_route-asked now route h = rw h refl

  refresh_route-IsMeasured :
      (now : ℕ) (route : Route)
      → MustBe (refresh_route o now route).0
      → IsMeasured now (refresh_route o now route).0 route
  refresh_route-IsMeasured now route h =
      elim (Bool-cases (not route.enabled || is_empty route.usage_command)) [
        | inl left ↦
            let same = refresh_route-left now route left in
            let (on, adapted, required) = subst MustBe same h in
            absurd (false≢true (sym (left_out route.enabled _ on adapted) ∙ left))
        | inr asked ↦
            let same = refresh_route-asked now route asked in
            subst (λ r. IsMeasured now r route) (sym same)
              (refreshed-IsMeasured now route _ refl (subst MustBe same h))
      ]

  -- Every route that is on behind refresh_routes, has an adapter and must be measured, is a given
  -- route with the windows of the observation that its adapter has reported: its command ran to its
  -- end with the code 0 in the environment of the route, the object in its output is the observation,
  -- and this passes the tests: it has the schema, is of the subject, provider, model and billing of
  -- the route, recent, without a spending or reset surface, and with windows where the route is
  -- included.
  pub refresh_routes-IsMeasured :
      (now : ℕ) (routes : List Route)
      → All (λ r. MustBe r → Any (IsMeasured now r) routes) (refresh_routes o now routes).0
  unfolding refresh_routes
  refresh_routes-IsMeasured now [] = tt
  refresh_routes-IsMeasured now (route ∷ rest) = (
    λ h. inl (refresh_route-IsMeasured now route h),
    All-map (λ r f h. inr (f h)) _ (refresh_routes-IsMeasured now rest),
  )
