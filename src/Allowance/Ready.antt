-- ===== src/Allowance/Ready.antt =====
-- When a plan may be carried out.
use idol_id_agents.Prelude.{
  ℕ, suc, Text, Bool, true, false, ◌≡◌, ◌↔◌, refl, sym, ap, ◌∙◌, ◌&&◌, not, and_true, List, [], ◌∷◌,
  all, is_empty, All, ◌==◌, eq_iff, ok, >>-ok, ok-injective, arith,
}
use idol_id_agents.Model.Atoms.{member}
use idol_id_agents.Scheduler.Floats.{Floats}
use idol_id_agents.Allowance.{Payload, validate_payload}
use idol_id_agents.Allowance.Windows.{source_of}
use idol_id_agents.Allowance.Eligible.{Candidate, trusted_telemetry}
use idol_id_agents.Allowance.Plan.{
  AllowancePlan, Blocker, note_blocker, assignment_execution_blockers, assignments_of, selection_of,
  plan,
}
use idol_id_agents.Allowance.Laws.{chosen_of, plan-IsPlanned}

module _ (F : Floats) where
  -- Live telemetry, a live claim, the work order's commit and the model are known.
  pub record IsReady (sha : Text) (c : Candidate F) : Type 0 where
    pub measured : member (source_of F c.provider c.window) trusted_telemetry ≡ true
    pub claimed : c.task.live_claim_verified ≡ true
    pub ordered : c.task.work_order_sha ≡ sha
    pub modelled : c.provider.raw.model_verified ≡ true

  note_blocker-empty :
      (a b c d : Bool) (v w x y : Blocker)
      → is_empty (
          note_blocker F
            (not a)
            v
            (note_blocker F (not b) w (note_blocker F (not c) x (note_blocker F (not d) y []))))
        ≡ (a && (b && (c && d)))
  note_blocker-empty false b c d v w x y = refl
  note_blocker-empty true false c d v w x y = refl
  note_blocker-empty true true false d v w x y = refl
  note_blocker-empty true true true false v w x y = refl
  note_blocker-empty true true true true v w x y = refl

  -- The four tests of an assignment.
  abbrev all_tests : Candidate F → Text → Bool
  all_tests c sha =
      member (source_of F c.provider c.window) trusted_telemetry
      && (c.task.live_claim_verified
          && ((c.task.work_order_sha == sha) && c.provider.raw.model_verified))

  blockers-empty :
      (c : Candidate F) (sha : Text)
      → is_empty (assignment_execution_blockers F c sha) ≡ all_tests c sha
  unfolding assignment_execution_blockers
  blockers-empty c sha =
      note_blocker-empty (member (source_of F c.provider c.window) trusted_telemetry)
        c.task.live_claim_verified (c.task.work_order_sha == sha) c.provider.raw.model_verified _ _
        _ _

  blockers-IsReady :
      (c : Candidate F) (sha : Text)
      → is_empty (assignment_execution_blockers F c sha) ≡ true
      → IsReady sha c
  blockers-IsReady c sha h =
      let e : all_tests c sha ≡ true = sym (blockers-empty c sha) ∙ h in
      let (measured, e₁) =
        and_true (member (source_of F c.provider c.window) trusted_telemetry)
          (c.task.live_claim_verified
            && ((c.task.work_order_sha == sha) && c.provider.raw.model_verified))
          e in
      let (claimed, e₂) =
        and_true c.task.live_claim_verified
          ((c.task.work_order_sha == sha) && c.provider.raw.model_verified) e₁ in
      let (ordered, modelled) =
        and_true (c.task.work_order_sha == sha) c.provider.raw.model_verified e₂ in
      record {
        measured = measured;
        claimed = claimed;
        ordered = (eq_iff c.task.work_order_sha sha).0 ordered;
        modelled = modelled;
      }

  IsReady-blockers :
      (c : Candidate F) (sha : Text)
      → IsReady sha c
      → is_empty (assignment_execution_blockers F c sha) ≡ true
  IsReady-blockers c sha h =
      let same : (c.task.work_order_sha == sha) ≡ true = (eq_iff _ _).1 h.ordered in
      blockers-empty c sha ∙ rw (h.measured, h.claimed, same, h.modelled) refl

  all-IsReady :
      (sha : Text) (n : ℕ) (cs : List (Candidate F))
      → (all (λ a. a.execution_ready) (assignments_of F sha n cs) ≡ true) ↔ All (IsReady sha) cs
  unfolding assignments_of
  all-IsReady sha n [] = (λ h. tt, λ h. refl)
  all-IsReady sha n (c ∷ rest) =
      let (to, from) = all-IsReady sha (suc n) rest in
      (
        λ h.
            (let (here, there) = and_true (is_empty (assignment_execution_blockers F c sha)) _ h in
              (blockers-IsReady c sha here, to there)),
        λ h. rw (IsReady-blockers c sha h.0, from h.1) refl,
      )

  is_empty-assignments_of :
      (sha : Text) (n : ℕ) (cs : List (Candidate F))
      → is_empty (assignments_of F sha n cs) ≡ is_empty cs
  unfolding assignments_of
  is_empty-assignments_of sha n [] = refl
  is_empty-assignments_of sha n (c ∷ rest) = refl

  execution_ready-eq :
      (payload : Payload F) {r : AllowancePlan F}
      → plan F payload ≡ ok r
      → r.execution_ready ≡ (
          not (is_empty (selection_of F payload).selected)
          && all
              (λ a. a.execution_ready)
              (assignments_of F payload.current_sha 1 (selection_of F payload).selected))
  unfolding plan
  execution_ready-eq payload h =
      let (valid, h₁) = >>-ok (validate_payload F payload) _ h in
      let chosen = (selection_of F payload).selected in
      ap (λ t. t.execution_ready) (sym (ok-injective h₁))
      ∙ ap
          (λ b.
            not b && all (λ a. a.execution_ready) (assignments_of F payload.current_sha 1 chosen))
          (is_empty-assignments_of payload.current_sha 1 chosen)

  -- A plan is ready for execution exactly when it has an assignment, and each is ready: its telemetry
  -- is live, its claim verified, its work order at the plan's commit, and its model verified.
  pub plan-IsReady :
      (payload : Payload F) (r : AllowancePlan F)
      → plan F payload ≡ ok r
      → (r.execution_ready ≡ true)
        ↔ ((is_empty (chosen_of F r) ≡ false) × All (IsReady payload.current_sha) (chosen_of F r))
  plan-IsReady payload r h =
      let chosen = (plan-IsPlanned F payload h).chosen in
      let (to, from) = all-IsReady payload.current_sha 1 (selection_of F payload).selected in
      rw (chosen, execution_ready-eq payload h)
        (
          λ e.
              (let (some_one, each) =
                  and_true (not (is_empty (selection_of F payload).selected)) _ e in
                (ground (arith, some_one), to each)),
          λ e. rw (e.0, from e.1) refl,
        )
