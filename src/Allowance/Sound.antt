-- ===== src/Allowance/Sound.antt =====
-- What a candidate's tests have checked.
use mathlib.Core.Path.{subst}
use idol_id_agents.Prelude.{
  ℕ, ◌≤◌, Text, text, Bool, true, false, ◌≡◌, ◌≢◌, refl, sym, ◌∙◌, ◌&&◌, ◌||◌, not, not-false,
  or_false, List, [], ◌∷◌, map, is_empty, All, All-keep_test, Any, ◌==◌, eq_iff, Option, none, some,
  ok, refuse_if-ok, refuse_if, inl, inr, ◌⊎◌, false≢true, arith, Bool-cases, leb, leb→le, or_else,
  Option-cases,
}
use idol_id_agents.Model.Atoms.{member}
use idol_id_agents.Scheduler.Floats.{Floats}
use idol_id_agents.Allowance.{Task, Payload}
use idol_id_agents.Allowance.Windows.{
  Window, ProviderState, provider_of, can_finish, resets_before, earliest, earliest?, best_window,
  zero_f, role_fit,
}
use idol_id_agents.Allowance.Eligible.{
  ProviderReason, Candidate, reject_task, provider_rejection, window_for, purchased, is_free,
  role_of, task_tokens, minutes_of, lacks_window,
}
use idol_id_agents.Allowance.Offers.{IsOffer}

module _ (F : Floats) where
  -- What makes an assignment sound.
  pub record IsSound (payload : Payload F) (c : Candidate F) : Type 0 where
    pub listed : Any (λ t. t ≡ c.task) payload.tasks
    pub provided : Any (λ p. p ≡ c.provider) (map (provider_of F) payload.providers)
    pub ready : c.task.state ≡ text "productive_ready"
    pub unblocked : c.task.blocked ≡ false
    pub based : c.task.base_sha ≡ payload.current_sha
    pub sized : 1 ≤ task_tokens F c.task
    pub enabled : c.provider.raw.enabled ≡ true
    pub admitted : member c.provider.id c.task.denied_provider_ids ≡ false
    pub independent :
        c.task.requires_different_family ≡ true
        → is_empty c.task.implementer_family ≡ false
        → c.provider.family ≢ c.task.implementer_family
    pub paid : member c.provider.cost_class purchased ≡ true → payload.paygo_approved ≡ true
    pub window :
        (is_free F c.provider ≡ true)
        ⊎ ((w : Window F) × (c.window ≡ some w)
            × (can_finish F c.provider (task_tokens F c.task) (minutes_of F c.task) payload.now w
                ≡ true))

  earliest-All :
      (P : Window F → Type 0) (w : Window F) (rest : List (Window F))
      → P w
      → All P rest
      → P (earliest F w rest)
  unfolding earliest
  earliest-All P w [] p h = p
  earliest-All P w (v ∷ rest) p h = elim (Bool-cases (resets_before F v.reset_at w.reset_at)) [
    | inl sooner ↦ rw sooner (earliest-All P v rest h.0 h.1)
    | inr later ↦ rw later (earliest-All P w rest p h.1)
  ]

  some≢none : {w : Window F} → ◌≢◌ {A = Option (Window F)} none (some w)
  some≢none h = cc

  earliest?-All :
      (P : Window F → Type 0) (ws : List (Window F)) {w : Window F}
      → earliest? F ws ≡ some w
      → All P ws
      → P w
  earliest?-All P [] h k = absurd (some≢none h)
  earliest?-All P (v ∷ rest) h k = subst P (cc) (earliest-All P v rest k.0 k.1)

  best_window-can_finish :
      (p : ProviderState F) (tokens minutes now : ℕ) (w : Window F)
      → best_window F p tokens minutes now ≡ some w
      → can_finish F p tokens minutes now w ≡ true
  unfolding best_window
  best_window-can_finish p tokens minutes now w h =
      earliest?-All (λ v. can_finish F p tokens minutes now v ≡ true) _ h
        (All-keep_test (can_finish F p tokens minutes now) p.windows)

  -- What the tests of a task check, of those that `IsSound` names.
  reject_task-passed :
      (task : Task F) (sha : Text)
      → reject_task F task sha ≡ ok tt
      → (task.state ≡ text "productive_ready")
        × (task.blocked ≡ false)
        × (task.base_sha ≡ sha)
        × (1 ≤ task_tokens F task)
  unfolding reject_task
  reject_task-passed task sha h =
      let (state, h₁) = refuse_if-ok (not (task.state == text "productive_ready")) _ _ h in
      let (free, h₂) = refuse_if-ok task.blocked _ _ h₁ in
      let (base, h₃) = refuse_if-ok (is_empty task.base_sha || not (task.base_sha == sha)) _ _ h₂ in
      let (value, h₄) = refuse_if-ok (not (F.lt (zero_f F) task.value)) _ _ h₃ in
      let (tokens, h₅) = refuse_if-ok (not (leb 1 (task_tokens F task))) _ _ h₄ in
      (
        (eq_iff _ _).0 (not-false _ state),
        free,
        (eq_iff task.base_sha sha).0 (not-false _ (or_false (is_empty task.base_sha) _ base).1),
        leb→le 1 (task_tokens F task) (not-false _ tokens),
      )

  -- The tests of a provider, of those that `IsSound` names.
  pub record IsAllowed (task : Task F) (p : ProviderState F) (now : ℕ) (paygo_approved : Bool)
      : Type 0 where
    pub enabled : p.raw.enabled ≡ true
    pub admitted : member p.id task.denied_provider_ids ≡ false
    pub apart :
        (task.requires_different_family
          && not (is_empty task.implementer_family)
          && (p.family == task.implementer_family))
        ≡ false
    pub unpaid : (member p.cost_class purchased && not paygo_approved) ≡ false
    pub finishes :
        (not (is_free F p)
          && lacks_window F (best_window F p (task_tokens F task) (minutes_of F task) now))
        ≡ false

  refused-not : (test : Bool) (e : ProviderReason) → refuse_if test e ≡ ok tt → test ≡ false
  refused-not true e h = cc
  refused-not false e h = refl

  provider_rejection-IsAllowed :
      (task : Task F) (p : ProviderState F) (now : ℕ) (paygo_approved : Bool)
      → provider_rejection F task p now paygo_approved ≡ ok tt
      → IsAllowed task p now paygo_approved
  unfolding provider_rejection
  provider_rejection-IsAllowed task p now paygo_approved h =
      let (enabled, h₁) = refuse_if-ok (not p.raw.enabled) _ _ h in
      let (model, h₂) = refuse_if-ok (is_empty p.raw.model) _ _ h₁ in
      let (allowed, h₃) =
        refuse_if-ok
          (not (is_empty task.allowed_provider_ids) && not (member p.id task.allowed_provider_ids))
          _ _ h₂ in
      let (denied, h₄) = refuse_if-ok (member p.id task.denied_provider_ids) _ _ h₃ in
      let (family, h₅) =
        refuse_if-ok
          (not (is_empty task.required_provider_family)
            && not (p.family == task.required_provider_family))
          _ _ h₄ in
      let (apart, h₆) =
        refuse_if-ok
          (task.requires_different_family
            && not (is_empty task.implementer_family)
            && (p.family == task.implementer_family))
          _ _ h₅ in
      let (paid, h₇) = refuse_if-ok (member p.cost_class purchased && not paygo_approved) _ _ h₆ in
      let (fit, h₈) =
        refuse_if-ok
          (F.lt (role_fit F p (role_of F task)) (or_else task.minimum_role_fit (F.of_ratio 55 100)))
          _ _ h₇ in
      let lacking =
        not (is_free F p)
        && lacks_window F (best_window F p (task_tokens F task) (minutes_of F task) now) in
      record {
        enabled = not-false _ enabled;
        admitted = denied;
        apart = apart;
        unpaid = paid;
        finishes = refused-not lacking _ h₈;
      }

  window_for-can_finish :
      (task : Task F) (p : ProviderState F) (now : ℕ) (window : Option (Window F))
      → window ≡ window_for F task p now
      → (not (is_free F p)
          && lacks_window F (best_window F p (task_tokens F task) (minutes_of F task) now))
        ≡ false
      → (is_free F p ≡ true)
        ⊎ ((w : Window F) × (window ≡ some w)
            × (can_finish F p (task_tokens F task) (minutes_of F task) now w ≡ true))
  unfolding window_for
  window_for-can_finish task p now window same h = elim (Bool-cases (is_free F p)) [
    | inl free_of_cost ↦ inl free_of_cost
    | inr costly ↦
        elim (Option-cases (best_window F p (task_tokens F task) (minutes_of F task) now)) [
          | inl missing ↦ absurd (false≢true (sym h ∙ rw (costly, missing) refl))
          | inr (w, found) ↦ inr (
            w,
            same ∙ rw costly found,
            best_window-can_finish p (task_tokens F task) (minutes_of F task) now w found,
          )
        ]
  ]

  family_apart :
      (asked empty same : Bool)
      → asked ≡ true
      → empty ≡ false
      → (asked && not empty && same) ≡ false
      → same ≢ true
  family_apart asked empty same a b h e = false≢true (ground (arith, a, b, h, e))

  bought_paid :
      (bought approved : Bool) → bought ≡ true → (bought && not approved) ≡ false → approved ≡ true
  bought_paid bought approved a h = ground (arith, a, h)

  pub offer-IsSound :
      (payload : Payload F) (c : Candidate F)
      → IsOffer F payload (map (provider_of F) payload.providers) c
      → IsSound payload c
  offer-IsSound payload c o =
      let (state, free_of_blocks, base, size) =
        reject_task-passed c.task payload.current_sha o.fit_task in
      let allowed =
        provider_rejection-IsAllowed c.task c.provider payload.now payload.paygo_approved
          o.fit_provider in
      record {
        listed = o.listed;
        provided = o.provided;
        ready = state;
        unblocked = free_of_blocks;
        based = base;
        sized = size;
        enabled = allowed.enabled;
        admitted = allowed.admitted;
        independent = λ asked named e.
            family_apart c.task.requires_different_family (is_empty c.task.implementer_family) _
              asked named allowed.apart ((eq_iff c.provider.family c.task.implementer_family).1 e);
        paid = λ bought. bought_paid _ payload.paygo_approved bought allowed.unpaid;
        window =
            window_for-can_finish c.task c.provider payload.now c.window o.window allowed.finishes;
      }
