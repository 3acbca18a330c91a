-- ===== src/Policy/Trust.antt =====
-- What the verdicts of the policy mean.
use idol_id_agents.Prelude.{
  ℕ, ◌≤◌, ◌<◌, Text, true, false, ◌≡◌, ◌≢◌, refl, ◌↔◌, ◌⊎◌, List, [], ◌∷◌, eq_iff, arith, not,
  is_empty, some, ok, Bool-cases, inl, inr,
}
use idol_id_agents.Model.{BillingClass, local, included, Route, WorkOrder}
use idol_id_agents.Model.Atoms.{member}
use idol_id_agents.Model.Proofs.{proof_valid}
use idol_id_agents.Policy.{
  allowed_proof_kinds, is_fixed_cost, reviews_own_family, route_allowed, assert_order_route,
  assert_zero_paygo,
}

-- A route that costs nothing beyond what is paid, with a current proof of its own subject.
pub record IsTrusted (subject_hash : Route → Text) (route : Route) (now : ℕ) : Type 0 where
  pub enabled : route.enabled ≡ true
  pub fixed_cost : (route.billing ≡ local) ⊎ (route.billing ≡ included)
  pub kind : member route.proof.kind allowed_proof_kinds ≡ true
  pub trusted : route.proof.trusted ≡ true
  pub current : (route.proof.observed_at ≤ now) × (now < route.proof.expires_at)
  pub evidenced :
      (route.proof.kind ≢ []) × (route.proof.subject_hash ≢ []) × (route.proof.evidence_hash ≢ [])
  pub subject : route.proof.subject_hash ≡ subject_hash route

fixed_cost_iff : (b : BillingClass) → (is_fixed_cost b ≡ true) ↔ ((b ≡ local) ⊎ (b ≡ included))
fixed_cost_iff b = (λ h. ground arith, λ h. ground arith)

not-nil : (s : Text) → not (is_empty s) ≡ true → s ≢ []
not-nil [] h e = cc
not-nil (c ∷ s) h e = cc

nil-not : (s : Text) → s ≢ [] → not (is_empty s) ≡ true
nil-not [] h = absurd (h refl)
nil-not (c ∷ s) h = refl

module _ (subject_hash : Route → Text) (route : Route) (now : ℕ) where
  -- The verdict allows a route exactly when it is trusted.
  pub route_allowed-iff-IsTrusted :
      (route_allowed subject_hash route now ≡ true) ↔ IsTrusted subject_hash route now
  unfolding route_allowed proof_valid
  route_allowed-iff-IsTrusted = (to, from)
    where
      to : route_allowed subject_hash route now ≡ true → IsTrusted subject_hash route now
      to h = record {
        enabled = ground arith;
        fixed_cost = (fixed_cost_iff route.billing).0 (ground arith);
        kind = ground arith;
        trusted = ground arith;
        current = (ground arith, ground arith);
        evidenced = (not-nil _ (ground arith), not-nil _ (ground arith), not-nil _ (ground arith));
        subject = ground (arith, eq_iff route.proof.subject_hash (subject_hash route));
      }

      from : IsTrusted subject_hash route now → route_allowed subject_hash route now ≡ true
      from t =
          let kept = (fixed_cost_iff route.billing).1 t.fixed_cost in
          ground (
            arith,
            nil-not route.proof.kind t.evidenced.0,
            nil-not route.proof.subject_hash t.evidenced.1,
            nil-not route.proof.evidence_hash t.evidenced.2,
            eq_iff route.proof.subject_hash (subject_hash route),
          )

  -- A work order may run on a route exactly when the route is trusted, is listed by the order,
  -- admits its role, and is of another family than the one that the order's review must avoid.
  pub assert_order_route_iff :
      (order : WorkOrder)
      → (assert_order_route subject_hash order route now ≡ ok tt) ↔ (
          IsTrusted subject_hash route now
          × (member route.id order.route_ids ≡ true)
          × (member order.role route.roles ≡ true)
          × (reviews_own_family order route ≡ false))
  unfolding assert_order_route
  assert_order_route_iff order = (
    λ h. (route_allowed-iff-IsTrusted.0 (ground arith), ground arith, ground arith, ground arith),
    λ h. ground (arith, route_allowed-iff-IsTrusted.1 h.0),
  )

-- The zero-cost assertion never fails: no metered route is ever allowed.
pub assert_zero_paygo_total :
    (subject_hash : Route → Text) (routes : List Route) (now : ℕ)
    → assert_zero_paygo subject_hash routes now ≡ some tt
unfolding assert_zero_paygo
assert_zero_paygo_total subject_hash [] now = refl
assert_zero_paygo_total subject_hash (r ∷ rest) now =
    elim (Bool-cases (route_allowed subject_hash r now)) [
      | inl allowed ↦ ground (
        arith,
        (route_allowed-iff-IsTrusted subject_hash r now).0 allowed,
        assert_zero_paygo_total subject_hash rest now,
      )
      | inr refused ↦ ground (arith, assert_zero_paygo_total subject_hash rest now)
    ]
