-- ===== src/Allowance/Laws.antt =====
-- What the plan of a valid payload guarantees.
use mathlib.Core.Path.{subst}
use idol_id_agents.Prelude.{
  ℕ, suc, ◌+◌, ◌≤◌, Text, ◌≡◌, refl, sym, ap, ◌∙◌, List, [], ◌∷◌, map, All, All-map, All-each,
  All-self, All-any, ok, >>-ok, ok-injective, arith,
}
use idol_id_agents.Scheduler.Floats.{Floats}
use idol_id_agents.Scheduler.Sort.{sort, sort-All}
use idol_id_agents.Allowance.{Payload, validate_payload}
use idol_id_agents.Allowance.Windows.{ProviderState, provider_of, remaining_by_window}
use idol_id_agents.Allowance.Eligible.{Candidate}
use idol_id_agents.Allowance.Plan.{
  AllowancePlan, value_of, initial_remaining, pool_of, selection_of, assignments_of, plan,
}
use idol_id_agents.Allowance.Select.{max_parallel}
use idol_id_agents.Allowance.Pool.{comes_before}
use idol_id_agents.Allowance.Chosen.{select-All}
use idol_id_agents.Allowance.Unique.{validate_payload-distinct, value_of-Names}
use idol_id_agents.Allowance.Budget.{drawn_total, Balanced, select-Balanced}
use idol_id_agents.Allowance.Parallel.{provider_uses, IsLimited, IsBounded, select-IsBounded}
use idol_id_agents.Allowance.Sound.{IsSound, offer-IsSound}
use idol_id_agents.Allowance.Offers.{IsOffer, add_tasks-IsPool}

module _ (F : Floats) where
  -- The candidates of a plan's assignments.
  abbrev pub chosen_of : AllowancePlan F → List (Candidate F)
  chosen_of r = map (λ a. a.candidate) r.assignments

  assignments_of-candidates :
      (sha : Text) (n : ℕ) (cs : List (Candidate F))
      → map (λ a. a.candidate) (assignments_of F sha n cs) ≡ cs
  unfolding assignments_of
  assignments_of-candidates sha n [] = refl
  assignments_of-candidates sha n (c ∷ rest) =
      ap (λ l. c ∷ l) (assignments_of-candidates sha (suc n) rest)

  -- What a plan is made of.
  pub record IsPlanned (payload : Payload F) (r : AllowancePlan F) : Type 0 where
    pub valid : validate_payload F payload ≡ ok tt
    pub chosen : chosen_of r ≡ (selection_of F payload).selected
    pub remaining : r.remaining ≡ (selection_of F payload).remaining
    pub rejected : r.rejected ≡ (selection_of F payload).rejected
    pub providers : r.providers ≡ map (provider_of F) payload.providers

  pub plan-IsPlanned :
      (payload : Payload F) {r : AllowancePlan F} → plan F payload ≡ ok r → IsPlanned payload r
  unfolding plan
  plan-IsPlanned payload h =
      let (valid, h₁) = >>-ok (validate_payload F payload) _ h in
      let e = ok-injective h₁ in
      record {
        valid = valid;
        chosen =
            ap (λ t. map (λ a. a.candidate) t.assignments) (sym e)
            ∙ assignments_of-candidates payload.current_sha 1 (selection_of F payload).selected;
        remaining = ap (λ t. t.remaining) (sym e);
        rejected = ap (λ t. t.rejected) (sym e);
        providers = ap (λ t. t.providers) (sym e);
      }

  module _ (payload : Payload F) where
    abbrev pub states : List (ProviderState F)
    states = map (provider_of F) payload.providers

    pub sorted-IsOffer :
        All (IsOffer F payload states) (sort (comes_before F) (pool_of F payload).candidates)
    sorted-IsOffer =
        sort-All (comes_before F) (IsOffer F payload states) (pool_of F payload).candidates
          (add_tasks-IsPool F payload states payload.tasks
            (record { candidates = []; rejected = [] }) (All-self payload.tasks)
            (record { offers = tt; answered = tt })).offers

    -- The limits of the providers.
    abbrev limits : Text → ℕ
    limits id = value_of F (max_parallel F) states id

    offer-IsLimited :
        validate_payload F payload ≡ ok tt
        → (c : Candidate F) → IsOffer F payload states c
        → IsLimited F limits c
    offer-IsLimited valid c o =
        let (p, named, same) =
          All-any _ _ states
            (value_of-Names F (max_parallel F) payload.providers
              (validate_payload-distinct F payload valid))
            o.provided in
        subst (λ q. value_of F (max_parallel F) states q.id ≡ max_parallel F q) same named

    selection_of-IsOffer : All (IsOffer F payload states) (selection_of F payload).selected
    unfolding selection_of
    selection_of-IsOffer = select-All F (IsOffer F payload states) _ _ sorted-IsOffer tt

    selection_of-Balanced : Balanced F (initial_remaining F states) (selection_of F payload)
    unfolding selection_of drawn_total
    selection_of-Balanced =
        select-Balanced F (initial_remaining F states) _ _ (All-map (λ c o. tt) _ sorted-IsOffer)
          (λ id name. omega arith)

    pub selection_of-IsBounded :
        validate_payload F payload ≡ ok tt → IsBounded F limits (selection_of F payload)
    unfolding selection_of provider_uses
    selection_of-IsBounded valid =
        select-IsBounded F limits _ _ (All-map (offer-IsLimited valid) _ sorted-IsOffer)
          (record { counted = λ id. refl; within = λ id. omega arith })

  -- What a plan leaves of each window of each provider, and what its assignments draw from the
  -- window, make up what the provider had.
  pub plan-balanced :
      (payload : Payload F) (r : AllowancePlan F)
      → plan F payload ≡ ok r
      → All
          (λ p.
            (name : Text)
            → r.remaining p.id name + drawn_total F p.id name (chosen_of r)
              ≡ remaining_by_window F p name)
          r.providers
  plan-balanced payload r h =
      let made = plan-IsPlanned payload h in
      rw (made.providers, made.chosen, made.remaining) (by_provider made.valid)
    where
      by_provider :
          validate_payload F payload ≡ ok tt
          → All
              (λ p.
                (name : Text)
                → (selection_of F payload).remaining p.id name
                    + drawn_total F p.id name (selection_of F payload).selected
                  ≡ remaining_by_window F p name)
              (map (provider_of F) payload.providers)
      by_provider valid = All-each _ (map (provider_of F) payload.providers) (λ name.
          All-map (λ p named. selection_of-Balanced payload p.id name ∙ named)
            (map (provider_of F) payload.providers)
            (value_of-Names F (λ p. remaining_by_window F p name) payload.providers
              (validate_payload-distinct F payload valid)))

  -- A plan uses no provider more often than its max_parallel, or once where that is zero.
  pub plan-le-parallel :
      (payload : Payload F) (r : AllowancePlan F)
      → plan F payload ≡ ok r
      → All (λ p. provider_uses F p.id (chosen_of r) ≤ max_parallel F p) r.providers
  plan-le-parallel payload r h =
      let made = plan-IsPlanned payload h in
      let bound = selection_of-IsBounded payload made.valid in
      rw (made.providers, made.chosen)
        (All-map (λ p named. omega (arith, bound.counted p.id, bound.within p.id, named))
          (map (provider_of F) payload.providers)
          (value_of-Names F (max_parallel F) payload.providers
            (validate_payload-distinct F payload made.valid)))

  -- Every assignment of a plan is sound: its task is a productive one of the payload at its base
  -- commit, and its provider is enabled, not denied, of another family where that is asked, paid only
  -- with approval, and free or with a window that has the tokens and the time for the task.
  pub plan-IsSound :
      (payload : Payload F) (r : AllowancePlan F)
      → plan F payload ≡ ok r
      → All (IsSound F payload) (chosen_of r)
  plan-IsSound payload r h =
      rw (plan-IsPlanned payload h).chosen
        (All-map (λ c o. offer-IsSound F payload c o) _ (selection_of-IsOffer payload))
