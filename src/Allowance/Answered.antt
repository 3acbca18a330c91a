-- ===== src/Allowance/Answered.antt =====
-- A plan leaves no task without an answer.
use mathlib.Core.Path.{subst}
use idol_id_agents.Prelude.{
  ◌≤◌, ◌<◌, Text, true, ◌≡◌, sym, ap, ◌∙◌, ◌==◌, eq_iff, List, [], ◌∷◌, any-true, All, All-map,
  All-any, All-self, Any, Any-map, some, ◌⊎◌, inl, inr, ok, arith,
}
use idol_id_agents.Model.Atoms.{member}
use idol_id_agents.Scheduler.Floats.{Floats}
use idol_id_agents.Scheduler.Sort.{sort, sort-All_back}
use idol_id_agents.Allowance.{Task, Payload}
use idol_id_agents.Allowance.Windows.{Window}
use idol_id_agents.Allowance.Eligible.{Candidate}
use idol_id_agents.Allowance.Plan.{AllowancePlan, pool_of, selection_of, plan}
use idol_id_agents.Allowance.Select.{max_parallel}
use idol_id_agents.Allowance.Pool.{comes_before}
use idol_id_agents.Allowance.Offers.{IsOffer, IsPool, add_tasks-IsPool}
use idol_id_agents.Allowance.Parallel.{provider_uses}
use idol_id_agents.Allowance.Answers.{
  RefusedIn, Settled, Known, select-Grows, select-Settled, select-Known,
}
use idol_id_agents.Allowance.Laws.{
  chosen_of, plan-IsPlanned, states, sorted-IsOffer, selection_of-IsBounded,
}

module _ {A : Type 0} (P Q : A → Type 0) where
  All-both : (xs : List A) → All P xs → All Q xs → All (λ x. P x × Q x) xs
  All-both [] p q = tt
  All-both (x ∷ xs) p q = ((p.0, q.0), All-both xs p.1 q.1)

module _ (F : Floats) where
  -- The task is refused or assigned, or it has an offer, of a provider of the payload that may take it
  -- with the tokens that the task needs and the window that the provider has for it, and this provider
  -- is used up to its limit, or the window has too few tokens left.
  abbrev pub IsAnswered : Payload F → AllowancePlan F → Task F → Type 0
  IsAnswered payload r t =
      RefusedIn F r.rejected t.id
      ⊎ (Any (λ k. k.task.id ≡ t.id) (chosen_of F r)
          ⊎ ((c : Candidate F) × IsOffer F payload (states F payload) c
              × (c.task ≡ t)
              × ((max_parallel F c.provider ≤ provider_uses F c.provider.id (chosen_of F r))
                  ⊎ ((w : Window F) × (c.window ≡ some w)
                      × (r.remaining c.provider.id w.name < c.tokens)))))

  module _ (payload : Payload F) where
    pool : IsPool F payload (states F payload) payload.tasks (pool_of F payload)
    pool =
        add_tasks-IsPool F payload (states F payload) payload.tasks
          (record { candidates = []; rejected = [] }) (All-self payload.tasks)
          (record { offers = tt; answered = tt })

    dealt : All (Settled F (selection_of F payload)) (pool_of F payload).candidates
    unfolding selection_of
    dealt =
        sort-All_back (comes_before F) (Settled F (selection_of F payload))
          (pool_of F payload).candidates
          (select-Settled F (sort (comes_before F) (pool_of F payload).candidates) _ tt)

    settled :
        All
          (λ c. Settled F (selection_of F payload) c × IsOffer F payload (states F payload) c)
          (pool_of F payload).candidates
    settled = All-both _ _ (pool_of F payload).candidates dealt pool.offers

    kept :
        (id : Text)
        → RefusedIn F (pool_of F payload).rejected id
        → RefusedIn F (selection_of F payload).rejected id
    unfolding selection_of
    kept id h =
        (select-Grows F (sort (comes_before F) (pool_of F payload).candidates) _).refused id h

    known : Known F (selection_of F payload)
    unfolding selection_of
    known = select-Known F _ _ (All-map (λ c o. tt) _ (sorted-IsOffer F payload)) tt

  member-Any : (id : Text) (ids : List Text) → member id ids ≡ true → Any (λ i. id ≡ i) ids
  unfolding member
  member-Any id ids h = Any-map (λ i e. (eq_iff id i).0 e) ids (any-true (λ i. id == i) ids h)

  Settled-IsAnswered :
      (payload : Payload F) (r : AllowancePlan F) (t : Task F) (c : Candidate F)
      → plan F payload ≡ ok r
      → c.task ≡ t
      → IsOffer F payload (states F payload) c
      → Settled F (selection_of F payload) c
      → IsAnswered payload r t
  Settled-IsAnswered payload r t c h same offer (inl selected) =
      let made = plan-IsPlanned F payload h in
      let s = selection_of F payload in
      let (i, found, e) =
        All-any _ _ s.selected_task_ids (known payload)
          (member-Any c.task.id s.selected_task_ids selected) in
      let named : i ≡ t.id = sym e ∙ ap (λ u. u.id) same in
      inr (inl (rw made.chosen (Any-map (λ k f. f ∙ named) s.selected found)))
  Settled-IsAnswered payload r t c h same offer (inr (inl refused)) = inl (
      rw (plan-IsPlanned F payload h).rejected
        (subst (λ u. RefusedIn F (selection_of F payload).rejected u.id) same refused))
  Settled-IsAnswered payload r t c h same offer (inr (inr (inl full))) =
      let made = plan-IsPlanned F payload h in
      let bound = selection_of-IsBounded F payload made.valid in
      inr (
        inr
          (c, offer, same, inl (rw made.chosen (omega (arith, full, bound.counted c.provider.id)))))
  Settled-IsAnswered payload r t c h same offer (inr (inr (inr (w, e, short)))) =
      inr (inr (c, offer, same, inr (w, e, rw (plan-IsPlanned F payload h).remaining short)))

  -- Every task of the payload of a plan is refused or assigned, or it has an offer, of a provider of
  -- the payload that may take it with the tokens that the task needs and the window that the provider
  -- has for it, and this provider is used up to its limit, or the window has too few tokens left.
  pub plan-IsAnswered :
      (payload : Payload F) (r : AllowancePlan F)
      → plan F payload ≡ ok r
      → All (IsAnswered payload r) payload.tasks
  plan-IsAnswered payload r h = All-map (λ t a. answer t a) payload.tasks (pool payload).answered
    where
      answer :
          (t : Task F)
          → (RefusedIn F (pool_of F payload).rejected t.id
              ⊎ Any (λ c. c.task ≡ t) (pool_of F payload).candidates)
          → IsAnswered payload r t
      answer t (inl refused) =
          inl (rw (plan-IsPlanned F payload h).rejected (kept payload t.id refused))
      answer t (inr found) =
          let (c, (dealt, offer), same) =
            All-any _ _ (pool_of F payload).candidates (settled payload) found in
          Settled-IsAnswered payload r t c h same offer dealt
