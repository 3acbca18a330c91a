-- ===== src/Allowance/Parallel.antt =====
-- How often a provider is selected.
use mathlib.Core.Path.{subst}
use idol_id_agents.Prelude.{
  ℕ, suc, ◌+◌, ◌≤◌, ◌<◌, Text, ◌≡◌, sym, ◌∙◌, List, [], ◌∷◌, ◌++◌, All, ◌==◌, eq_iff, arith,
  if◌then◌else◌, Bool-cases, inl, inr,
}
use idol_id_agents.Scheduler.Floats.{Floats}
use idol_id_agents.Allowance.Eligible.{Candidate}
use idol_id_agents.Allowance.Select.{Selection, count_one, max_parallel, select}
use idol_id_agents.Allowance.Chosen.{select-keeps}

module _ (F : Floats) where
  -- How many selected candidates use the provider `id`.
  unfoldable pub provider_uses : Text → List (Candidate F) → ℕ
  provider_uses id [] = 0
  provider_uses id (c ∷ rest) = (if c.provider.id == id then 1 else 0) + provider_uses id rest

  provider_uses-snoc :
      (id : Text) (xs : List (Candidate F)) (c : Candidate F)
      → provider_uses id (xs ++ c ∷ [])
        ≡ provider_uses id xs + (if c.provider.id == id then 1 else 0)
  unfolding provider_uses
  provider_uses-snoc id [] c = omega arith
  provider_uses-snoc id (x ∷ xs) c = omega (arith, provider_uses-snoc id xs c)

  module _ (limit : Text → ℕ) where
    -- The limit is the one of the candidate's provider.
    abbrev pub IsLimited : Candidate F → Type 0
    IsLimited c = limit c.provider.id ≡ max_parallel F c.provider

    -- The counts are those of the selection, and within the limits.
    pub record IsBounded (s : Selection F) : Type 0 where
      pub counted : (id : Text) → s.parallel id ≡ provider_uses id s.selected
      pub within : (id : Text) → s.parallel id ≤ limit id

    count_one-counted :
        (c : Candidate F) (s : Selection F) (id : Text)
        → IsBounded s
        → count_one F c.provider.id s.parallel id ≡ provider_uses id (s.selected ++ c ∷ [])
    unfolding count_one
    count_one-counted c s id h = elim (Bool-cases (c.provider.id == id)) [
      | inl here ↦
          let snoc = provider_uses-snoc id s.selected c in
          rw here (sym (snoc ∙ rw here (omega (arith, h.counted id))))
      | inr there ↦
          let snoc = provider_uses-snoc id s.selected c in
          rw there (sym (snoc ∙ rw there (omega (arith, h.counted id))))
    ]

    count_one-within :
        (c : Candidate F) (s : Selection F) (id : Text)
        → IsLimited c
        → s.parallel c.provider.id < max_parallel F c.provider
        → IsBounded s
        → count_one F c.provider.id s.parallel id ≤ limit id
    unfolding count_one
    count_one-within c s id q room h = elim (Bool-cases (c.provider.id == id)) [
      | inr there ↦ rw there (h.within id)
      | inl here ↦
          let e = (eq_iff c.provider.id id).0 here in
          rw here (subst (λ i. suc (s.parallel i) ≤ limit i) e (omega (arith, q, room)))
    ]

    pub select-IsBounded :
        (cs : List (Candidate F)) (s : Selection F)
        → All IsLimited cs
        → IsBounded s
        → IsBounded (select F cs s)
    select-IsBounded =
        select-keeps F IsLimited IsBounded
          (λ s t r p. record {
            counted = λ id. rw (r.parallel, r.selected) (p.counted id);
            within = λ id. rw r.parallel (p.within id);
          })
          (λ c s t q r p. subst IsBounded (sym r.result) (record {
            counted = λ id. count_one-counted c s id p;
            within = λ id. count_one-within c s id q r.room p;
          }))
