-- ===== src/Policy.antt =====
-- fleet_control/policy.py: which routes may run at all, and which may run a given work order.
-- `subject_hash` stands for the property `Route.subject_hash`: the SHA-256 of the route's JSON form,
-- with the files on disk that it names. It is a parameter, one answer for each route.
pub mod Trust
use idol_id_agents.Prelude.{
  ℕ, Text, text, Bool, true, false, ◌&&◌, ◌||◌, not, List, [], ◌∷◌, ◌++◌, ◌==◌, is_empty, Option,
  none, some, Result, ok, err, refuse_if, ◌>>=◌, ◌>>◌, if◌then◌else◌,
}
use idol_id_agents.Model.{
  BillingClass, local, included, paygo, purchased, topup, unknown, Route, WorkOrder,
}
use idol_id_agents.Model.Atoms.{member}
use idol_id_agents.Model.Proofs.{proof_valid}

pub data PolicyReason : Type 0 where
  route_disabled : PolicyReason
  billing_forbidden : BillingClass → PolicyReason
  untrusted_proof_kind proof_invalid_or_expired proof_subject_mismatch : PolicyReason

abbrev pub allowed_proof_kinds : List Text
allowed_proof_kinds =
    text "local-process"
    ∷ text "subscription-oauth"
    ∷ text "subscription-plan"
    ∷ text "zero-cost-model"
    ∷ []

abbrev pub is_fixed_cost : BillingClass → Bool
is_fixed_cost local = true
is_fixed_cost included = true
is_fixed_cost _ = false

-- `if test: reasons.append(reason)`.
abbrev pub note_if : {A : Type 0} → Bool → A → List A
note_if test reason = if test then reason ∷ [] else []

-- `order.reviewer_family and order.role == "reviewer" and …`: a family that is set and not empty.
unfoldable pub reviews_own_family : WorkOrder → Route → Bool
unfolding ◌==◌
reviews_own_family order route = elim order.reviewer_family [
  | none ↦ false
  | some family ↦
      not (is_empty family) && (order.role == text "reviewer") && (route.provider_family == family)
]

pub data PolicyRefusal : Type 0 where
  route_refused : List PolicyReason → PolicyRefusal
  route_not_listed role_not_admitted reviewer_not_independent : PolicyRefusal

module _ (subject_hash : Route → Text) where
  -- `route_verdict(…).reasons`.
  unfoldable pub verdict_reasons : Route → ℕ → List PolicyReason
  verdict_reasons route now =
      note_if (not route.enabled) route_disabled
      ++ (note_if (not (is_fixed_cost route.billing)) (billing_forbidden route.billing)
          ++ (note_if (not (member route.proof.kind allowed_proof_kinds)) untrusted_proof_kind
              ++ (note_if (not (proof_valid route.proof now)) proof_invalid_or_expired
                  ++ note_if (not (route.proof.subject_hash == subject_hash route))
                      proof_subject_mismatch)))

  -- `route_verdict(…).allowed`.
  unfoldable pub route_allowed : Route → ℕ → Bool
  unfolding verdict_reasons
  route_allowed route now = is_empty (verdict_reasons route now)

  pub assert_route_allowed : Route → ℕ → Result PolicyRefusal (Unit {0})
  assert_route_allowed route now =
      refuse_if (not (route_allowed route now)) (route_refused (verdict_reasons route now))

  unfoldable pub assert_order_route : WorkOrder → Route → ℕ → Result PolicyRefusal (Unit {0})
  unfolding assert_route_allowed
  assert_order_route order route now = do
    assert_route_allowed route now
    refuse_if (not (member route.id order.route_ids)) route_not_listed
    refuse_if (not (member order.role route.roles)) role_not_admitted
    refuse_if (reviews_own_family order route) reviewer_not_independent
    ok tt

  abbrev is_metered : BillingClass → Bool
  is_metered paygo = true
  is_metered purchased = true
  is_metered topup = true
  is_metered unknown = true
  is_metered _ = false

  -- `none` is an `AssertionError`.
  unfoldable pub assert_zero_paygo : List Route → ℕ → Option (Unit {0})
  assert_zero_paygo [] now = some tt
  assert_zero_paygo (route ∷ rest) now =
      let later = assert_zero_paygo rest now in
      if route.enabled && is_metered route.billing && route_allowed route now then none else later
