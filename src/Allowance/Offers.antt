-- ===== src/Allowance/Offers.antt =====
-- The candidates that the first loop of `plan` collects.
use mathlib.Core.Path.{subst}
use idol_id_agents.Prelude.{
  Text, ◌≡◌, refl, sym, ap, ◌∙◌, List, [], ◌∷◌, ◌++◌, All, All-append, All-map, Any,
  Any-append_right, Any-append_left, Result, ok, err, inl, inr, ◌⊎◌,
}
use idol_id_agents.Scheduler.Floats.{Floats}
use idol_id_agents.Allowance.{Task, Payload}
use idol_id_agents.Allowance.Windows.{ProviderState}
use idol_id_agents.Allowance.Eligible.{
  TaskReason, ProviderReason, Candidate, reject_task, provider_rejection, window_for,
  candidate_score, task_tokens,
}
use idol_id_agents.Allowance.Pool.{
  Pool, PlanReason, offer, match_providers, match_task, refuse, add_matches, add_task, add_tasks,
}

module _ (F : Floats) where
  -- A candidate of a task on a provider that both pass their tests.
  pub record IsOffer (payload : Payload F) (providers : List (ProviderState F)) (c : Candidate F)
      : Type 0 where
    pub listed : Any (λ t. t ≡ c.task) payload.tasks
    pub provided : Any (λ p. p ≡ c.provider) providers
    pub fit_task : reject_task F c.task payload.current_sha ≡ ok tt
    pub fit_provider :
        provider_rejection F c.task c.provider payload.now payload.paygo_approved ≡ ok tt
    pub window : c.window ≡ window_for F c.task c.provider payload.now
    pub tokens : c.tokens ≡ task_tokens F c.task

  -- What a round of the loop over the providers has found.
  abbrev Offered : Task F → Payload F → List (ProviderState F) → Candidate F → Type 0
  Offered task payload providers c =
      (c.task ≡ task)
      × Any (λ p. p ≡ c.provider) providers
      × (provider_rejection F c.task c.provider payload.now payload.paygo_approved ≡ ok tt)
      × (c.window ≡ window_for F c.task c.provider payload.now)
      × (c.tokens ≡ task_tokens F c.task)

  Offered-later :
      (task : Task F) (payload : Payload F) (p : ProviderState F) (rest : List (ProviderState F))
      (c : Candidate F)
      → Offered task payload rest c
      → Offered task payload (p ∷ rest) c
  Offered-later task payload p rest c (same, provided, fits, window, tokens) =
      (same, inr provided, fits, window, tokens)

  offer-Offered :
      (task : Task F) (payload : Payload F) (p : ProviderState F) (rest : List (ProviderState F))
      → provider_rejection F task p payload.now payload.paygo_approved ≡ ok tt
      → Offered task payload
          (p ∷ rest)
          (candidate_score F task p (window_for F task p payload.now) payload.now)
  unfolding candidate_score
  offer-Offered task payload p rest e = (refl, inl refl, e, refl, refl)

  offer-All :
      (task : Task F) (payload : Payload F) (p : ProviderState F) (rest : List (ProviderState F))
      (r : Result ProviderReason (Unit {0}))
      (later : List (Candidate F) × List (Text × ProviderReason))
      → provider_rejection F task p payload.now payload.paygo_approved ≡ r
      → All (Offered task payload rest) later.0
      → All (Offered task payload (p ∷ rest)) (offer F task p payload.now r later).0
  unfolding offer
  offer-All task payload p rest (ok u) (found, reasons) e h =
      (offer-Offered task payload p rest e, All-map (Offered-later task payload p rest) found h)
  offer-All task payload p rest (err reason) (found, reasons) e h =
      All-map (Offered-later task payload p rest) found h

  match_providers-Offered :
      (task : Task F) (payload : Payload F) (providers : List (ProviderState F))
      → All
          (Offered task payload providers)
          (match_providers F task providers payload.now payload.paygo_approved).0
  unfolding match_providers
  match_providers-Offered task payload [] = tt
  match_providers-Offered task payload (p ∷ rest) =
      offer-All task payload p rest _ _ refl (match_providers-Offered task payload rest)

  module _ (payload : Payload F) (providers : List (ProviderState F)) where
    -- Every candidate is an offer, and every task that is passed over is refused.
    pub record IsPool (seen : List (Task F)) (pool : Pool F) : Type 0 where
      pub offers : All (IsOffer payload providers) pool.candidates
      pub answered :
          All
            (λ t. Any (λ r. r.task_id ≡ t.id) pool.rejected ⊎ Any (λ c. c.task ≡ t) pool.candidates)
            seen

    abbrev Answered : Pool F → Task F → Type 0
    Answered pool t =
        Any (λ r. r.task_id ≡ t.id) pool.rejected ⊎ Any (λ c. c.task ≡ t) pool.candidates

    refuse-IsPool :
        (task : Task F) (seen : List (Task F)) (reason : PlanReason) (pool : Pool F)
        → IsPool seen pool
        → IsPool (task ∷ seen) (refuse F task.id reason pool)
    refuse-IsPool task seen reason pool h = record {
      offers = h.offers;
      answered = (
        inl (Any-append_right _ pool.rejected _ (inl refl)),
        All-map {Q = Answered (refuse F task.id reason pool)} (λ t a. keep_answer t a) seen
            h.answered,
      );
    }
      where
        keep_answer : (t : Task F) → Answered pool t → Answered (refuse F task.id reason pool) t
        keep_answer t (inl a) = inl (Any-append_left _ pool.rejected _ a)
        keep_answer t (inr a) = inr a

    add_matches-IsPool :
        (task : Task F) (seen : List (Task F))
        (found : List (Candidate F) × List (Text × ProviderReason)) (pool : Pool F)
        → All (IsOffer payload providers) found.0
        → All (λ c. c.task ≡ task) found.0
        → IsPool seen pool
        → IsPool (task ∷ seen) (add_matches F task found pool)
    unfolding add_matches
    add_matches-IsPool task seen ([], reasons) pool o same h =
        refuse-IsPool task seen (PlanReason.no_eligible_provider reasons) pool h
    add_matches-IsPool task seen (c ∷ found, reasons) pool o same h = record {
      offers = All-append _ pool.candidates (c ∷ found) h.offers o;
      answered = (
        inr (Any-append_right _ pool.candidates (c ∷ found) (inl same.0)),
        All-map {Q = Answered (record pool { candidates = pool.candidates ++ c ∷ found })}
            (λ t a. keep_answer t a) seen h.answered,
      );
    }
      where
        keep_answer :
            (t : Task F)
            → Answered pool t
            → Answered (record pool { candidates = pool.candidates ++ c ∷ found }) t
        keep_answer t (inl a) = inl a
        keep_answer t (inr a) = inr (Any-append_left _ pool.candidates (c ∷ found) a)

    Offered-IsOffer :
        (task : Task F)
        → Any (λ t. t ≡ task) payload.tasks
        → reject_task F task payload.current_sha ≡ ok tt
        → (c : Candidate F) → Offered task payload providers c
        → IsOffer payload providers c
    Offered-IsOffer task listed passes c (same, provided, fits, window, tokens) = record {
      listed = subst (λ u. Any (λ t. t ≡ u) payload.tasks) (sym same) listed;
      provided = provided;
      fit_task = ap (λ u. reject_task F u payload.current_sha) same ∙ passes;
      fit_provider = fits;
      window = window;
      tokens = tokens;
    }

    match_task-IsPool :
        (task : Task F) (seen : List (Task F)) (r : Result TaskReason (Unit {0})) (pool : Pool F)
        → reject_task F task payload.current_sha ≡ r
        → Any (λ t. t ≡ task) payload.tasks
        → IsPool seen pool
        → IsPool (task ∷ seen) (match_task F payload providers task r pool)
    unfolding match_task
    match_task-IsPool task seen (err reason) pool e listed h =
        refuse-IsPool task seen (PlanReason.unfit reason) pool h
    match_task-IsPool task seen (ok u) pool e listed h =
        let offered = match_providers-Offered task payload providers in
        add_matches-IsPool task seen
          (match_providers F task providers payload.now payload.paygo_approved) pool
          (All-map (λ c o. Offered-IsOffer task listed e c o) _ offered)
          (All-map (λ c o. o.0) _ offered) h

    add_task-IsPool :
        (task : Task F) (seen : List (Task F)) (pool : Pool F)
        → Any (λ t. t ≡ task) payload.tasks
        → IsPool seen pool
        → IsPool (task ∷ seen) (add_task F payload providers task pool)
    unfolding add_task
    add_task-IsPool task seen pool listed h = match_task-IsPool task seen _ pool refl listed h

    -- The later rounds keep what the earlier ones have answered.
    add_tasks-keep :
        (tasks seen : List (Task F)) (pool : Pool F)
        → All (λ u. Any (λ t. t ≡ u) payload.tasks) tasks
        → IsPool seen pool
        → IsPool seen (add_tasks F payload providers tasks pool)
    unfolding add_tasks
    add_tasks-keep [] seen pool listed h = h
    add_tasks-keep (task ∷ rest) seen pool listed h =
        let next = add_task-IsPool task seen pool listed.0 h in
        add_tasks-keep rest seen (add_task F payload providers task pool) listed.1
          (record { offers = next.offers; answered = next.answered.1 })

    pub add_tasks-IsPool :
        (tasks : List (Task F)) (pool : Pool F)
        → All (λ u. Any (λ t. t ≡ u) payload.tasks) tasks
        → IsPool [] pool
        → IsPool tasks (add_tasks F payload providers tasks pool)
    unfolding add_tasks
    add_tasks-IsPool [] pool listed h = h
    add_tasks-IsPool (task ∷ rest) pool listed h =
        let next = add_task-IsPool task [] pool listed.0 h in
        let after = add_task F payload providers task pool in
        let kept = add_tasks-keep rest (task ∷ []) after listed.1 next in
        let later =
          add_tasks-IsPool rest after listed.1 (record { offers = next.offers; answered = tt }) in
        record { offers = later.offers; answered = (kept.answered.0, later.answered) }
