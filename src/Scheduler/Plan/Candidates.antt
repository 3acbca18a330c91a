-- ===== src/Scheduler/Plan/Candidates.antt =====
-- The first loop of `build_plan`: what makes a candidate.
use idol_id_agents.Prelude.{
  leb-false, ltb-false, not-false, ◌-◌, ◌*◌, ◌≤◌, ◌<◌, Text, Bool, true, false, ◌≡◌, refl, ◌⊎◌, inl,
  inr, List, [], ◌∷◌, ◌++◌, eq_iff, any-false, all, all-false, leb, ltb, not, ◌&&◌, All, Any,
  Any-map, Option-cases, arith, some, map, is_empty, is_empty-map,
}
use idol_id_agents.Model.{Route, WorkOrder, AllowanceWindow, second}
use idol_id_agents.Model.Atoms.{member}
use idol_id_agents.Policy.{verdict_reasons, route_allowed, reviews_own_family, note_if}
use idol_id_agents.Policy.Trust.{IsTrusted, route_allowed-iff-IsTrusted}
use idol_id_agents.Scheduler.{orders_conflict}
use idol_id_agents.Scheduler.Floats.{Floats}
use idol_id_agents.Scheduler.Eligible.{policy, Request, order_reasons, pair_reasons, route_by_id}

-- `route_by_id` gives a route of the id that it is asked for.
pub route_by_id-id :
    (routes : List Route) (id : Text) {route : Route}
    → route_by_id routes id ≡ some route
    → route.id ≡ id
unfolding route_by_id
route_by_id-id [] id h = cc
route_by_id-id (r ∷ rest) id {route} h = elim (Option-cases (route_by_id rest id)) [
  | inl missing ↦ ground (arith, eq_iff r.id id)
  | inr (later, found) ↦ ground (arith, route_by_id-id rest id found)
]

-- A row of optional notes that is empty has no note.
no_notes :
    {A : Type 0} (vs : List A) (t₁ t₂ t₃ t₄ t₅ : Bool) (r₁ r₂ r₃ r₄ r₅ : A)
    → is_empty (
        vs
        ++ (note_if t₁ r₁
            ++ (note_if t₂ r₂ ++ (note_if t₃ r₃ ++ (note_if t₄ r₄ ++ note_if t₅ r₅)))))
      ≡ true
    → (is_empty vs ≡ true)
      × (t₁ ≡ false)
      × (t₂ ≡ false)
      × (t₃ ≡ false)
      × (t₄ ≡ false)
      × (t₅ ≡ false)
no_notes [] t₁ t₂ t₃ t₄ t₅ r₁ r₂ r₃ r₄ r₅ h = ground arith
no_notes (v ∷ vs) t₁ t₂ t₃ t₄ t₅ r₁ r₂ r₃ r₄ r₅ h = cc

module _ (F : Floats) (subject_hash : Route → Text) (q : Request F) where
  -- The order may be planned at all.
  pub record IsReady (order : WorkOrder) : Type 0 where
    pub current_base : order.base_sha ≡ q.base_sha
    pub unclaimed : All (λ held. orders_conflict order held ≡ false) q.active_orders

  -- The order may run on the route.
  pub record IsEligible (order : WorkOrder) (route : Route) : Type 0 where
    pub trusted : IsTrusted subject_hash route q.now
    pub role : member order.role route.roles ≡ true
    pub independent : reviews_own_family order route ≡ false
    pub room : q.route_active route.id < route.max_parallel
    pub allowance : (route.allowance ≡ []) ⊎ Any (λ w. 0 < w.remaining_fraction) route.allowance
    pub time :
        (route.allowance ≡ [])
        ⊎ Any (λ w. order.estimated_seconds * second ≤ w.resets_at - q.now) route.allowance

  pub IsReady-reasons :
      (order : WorkOrder) → is_empty (order_reasons F subject_hash q order) ≡ true → IsReady order
  unfolding order_reasons
  IsReady-reasons order h = record {
    current_base = ground (arith, eq_iff order.base_sha q.base_sha);
    unclaimed = any-false _ q.active_orders (ground arith);
  }

  measured :
      (windows : List AllowanceWindow) (p : AllowanceWindow → Bool)
      → (not (is_empty windows) && all p windows) ≡ false
      → (windows ≡ []) ⊎ Any (λ w. p w ≡ false) windows
  measured [] p h = inl refl
  measured (w ∷ ws) p h = inr (all-false p (w ∷ ws) h)

  pub IsEligible-reasons :
      (order : WorkOrder) (route : Route)
      → is_empty (pair_reasons F subject_hash q order route) ≡ true
      → IsEligible order route
  unfolding pair_reasons route_allowed
  IsEligible-reasons order route h =
      let (verdict, role, family, room, allowance, time) =
        no_notes (map policy (verdict_reasons subject_hash route q.now)) _ _ _ _ _ _ _ _ _ _ h in
      record {
        trusted =
            (route_allowed-iff-IsTrusted subject_hash route q.now).0
              (rw (← is_empty-map policy _) verdict);
        role = not-false _ role;
        independent = family;
        room = leb-false _ _ room;
        allowance = elim (measured route.allowance (λ w. leb w.remaining_fraction 0) allowance) [
          | inl e ↦ inl e
          | inr some_left ↦
              inr (Any-map (λ w e. leb-false w.remaining_fraction 0 e) route.allowance some_left)
        ];
        time =
            elim (measured route.allowance
              (λ w. ltb (w.resets_at - q.now) (order.estimated_seconds * second)) time) [
                | inl e ↦ inl e
                | inr in_time ↦ inr (
                    Any-map
                      (λ w e. ltb-false (w.resets_at - q.now) (order.estimated_seconds * second) e)
                      route.allowance in_time)
              ];
      }
