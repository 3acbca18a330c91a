-- ===== src/Allowance/Unique.antt =====
-- What the validation of a payload says of its ids.
use idol_id_agents.Prelude.{
  ℕ, Text, text, not, Bool, true, false, ◌≡◌, ◌≢◌, refl, sym, ◌∙◌, List, [], ◌∷◌, map, is_empty,
  All, All-map, Pairwise, ◌==◌, eq_iff, eq_refl, or_false, false≢true, Result, ok, err,
  refuse_if-ok, >>-ok, Bool-cases, inl, inr, if◌then◌else◌,
}
use idol_id_agents.Model.Atoms.{member}
use idol_id_agents.Scheduler.Floats.{Floats}
use idol_id_agents.Allowance.{
  ProviderInput, Payload, PayloadError, Label, provider_label, id_missing, id_duplicate,
  validate_unique, validate_payload,
}
use idol_id_agents.Allowance.Windows.{ProviderState, provider_of}
use idol_id_agents.Allowance.Plan.{value_of}

past_test :
    {rest : Result PayloadError (Unit {0})} (test : Bool) (e : PayloadError)
    → (if test then err e else rest) ≡ ok tt
    → (test ≡ false) × (rest ≡ ok tt)
past_test true e h = cc
past_test false e h = (refl, h)

member-cons :
    (id seen : Text) (rest : List Text)
    → member id (seen ∷ rest) ≡ false
    → (id ≢ seen) × (member id rest ≡ false)
unfolding member
member-cons id seen rest h =
    let (here, there) = or_false (id == seen) _ h in
    (λ e. false≢true (sym here ∙ (eq_iff id seen).1 e), there)

-- Ids that are not yet seen, and different.
abbrev Unseen : List Text → List Text → Type 0
Unseen seen ids = All (λ i. member i seen ≡ false) ids

pub validate_unique-distinct :
    (label : Label) (seen ids : List Text)
    → validate_unique label seen ids ≡ ok tt
    → Unseen seen ids × Pairwise (λ i j. i ≢ j) ids
unfolding validate_unique
validate_unique-distinct label seen [] h = (tt, tt)
validate_unique-distinct label seen (id ∷ rest) h =
    let (named, h₁) = past_test (is_empty id) (id_missing label) h in
    let (new, h₂) = past_test (member id seen) (id_duplicate label id) h₁ in
    let (unseen, apart) = validate_unique-distinct label (id ∷ seen) rest h₂ in
    (
      (new, All-map (λ i m. (member-cons i id seen m).1) rest unseen),
      (All-map (λ i m e. (member-cons i id seen m).0 (sym e)) rest unseen, apart),
    )

module _ (F : Floats) where
  -- The value of an id is the one of its provider.
  abbrev pub Names : (ProviderState F → ℕ) → List (ProviderState F) → ProviderState F → Type 0
  Names f providers p = value_of F f providers p.id ≡ f p

  value_of-later :
      (f : ProviderState F → ℕ) (p : ProviderState F) (rest : List (ProviderState F))
      (q : ProviderState F)
      → p.id ≢ q.id
      → Names f rest q
      → Names f (p ∷ rest) q
  unfolding value_of
  value_of-later f p rest q apart h = elim (Bool-cases (p.id == q.id)) [
    | inl e ↦ absurd (apart ((eq_iff p.id q.id).0 e))
    | inr e ↦ rw e h
  ]

  pub value_of-Names :
      (f : ProviderState F → ℕ) (inputs : List (ProviderInput F))
      → Pairwise (λ i j. i ≢ j) (map (λ p. p.id) inputs)
      → All (Names f (map (provider_of F) inputs)) (map (provider_of F) inputs)
  unfolding value_of provider_of
  value_of-Names f [] h = tt
  value_of-Names f (p ∷ rest) h =
      let later = value_of-Names f rest h.1 in (rw (eq_refl p.id) refl, go rest h.0 later)
    where
      go :
          (others : List (ProviderInput F))
          → All (λ j. p.id ≢ j) (map (λ q. q.id) others)
          → All (Names f (map (provider_of F) rest)) (map (provider_of F) others)
          → All (Names f (map (provider_of F) (p ∷ rest))) (map (provider_of F) others)
      go [] a b = tt
      go (q ∷ others) a b = (
        value_of-later f (provider_of F p) (map (provider_of F) rest) (provider_of F q) a.0 b.0,
        go others a.1 b.1,
      )

  pub validate_payload-distinct :
      (payload : Payload F)
      → validate_payload F payload ≡ ok tt
      → Pairwise (λ i j. i ≢ j) (map (λ p. p.id) payload.providers)
  unfolding validate_payload
  validate_payload-distinct payload h =
      let (schema, h₁) =
        refuse_if-ok (not (payload.schema == text "idol.allowance.input.v1"))
          PayloadError.wrong_schema _ h in
      let (sha, h₂) =
        refuse_if-ok (is_empty payload.current_sha) PayloadError.current_sha_missing _ h₁ in
      let (providers, h₃) =
        >>-ok (validate_unique provider_label [] (map (λ p. p.id) payload.providers)) _ h₂ in
      (validate_unique-distinct provider_label [] (map (λ p. p.id) payload.providers) providers).1
