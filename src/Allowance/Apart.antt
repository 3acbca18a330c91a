-- ===== src/Allowance/Apart.antt =====
-- The selected tasks have nothing in common.
use mathlib.Core.Path.{subst}
use idol_id_agents.Prelude.{
  Text, Bool, true, false, ◌≡◌, ◌≢◌, refl, sym, ap, ◌∙◌, not, not-false, and_false, List, [], ◌∷◌,
  map, any-false, is_empty, All, All-append, All-map, Pairwise, Pairwise-snoc, ◌==◌, eq_iff,
  eq_refl, Option, none, some, false≢true, inl, inr, ◌⊎◌, arith, if◌then◌else◌,
}
use idol_id_agents.Model.Atoms.{member}
use idol_id_agents.Scheduler.Floats.{Floats}
use idol_id_agents.Allowance.{Task}
use idol_id_agents.Allowance.Eligible.{Candidate}
use idol_id_agents.Allowance.Conflicts.{
  normalized_path, paths_overlap, any_overlap, shares_boundary, same_group, conflict, conflicts,
}
use idol_id_agents.Allowance.Select.{Selection, select}
use idol_id_agents.Allowance.Chosen.{select-keeps}

module _ (F : Floats) where
  -- A task beside one that was selected before it: no common group, path or boundary.
  pub record IsClear (task other : Task F) : Type 0 where
    pub groups :
        is_empty task.exclusive_group ≡ true ⊎ (task.exclusive_group ≢ other.exclusive_group)
    pub paths :
        All
          (λ p.
            All (λ q. paths_overlap (normalized_path p) (normalized_path q) ≡ false) other.paths)
          task.paths
    pub boundaries : All (λ b. member b other.semantic_boundaries ≡ false) task.semantic_boundaries

  same_group-apart :
      (task other : Task F)
      → same_group F task other ≡ false
      → is_empty task.exclusive_group ≡ true ⊎ (task.exclusive_group ≢ other.exclusive_group)
  same_group-apart task other h =
      elim (and_false (not (is_empty task.exclusive_group))
        (task.exclusive_group == other.exclusive_group) h) [
          | inl e ↦ inl (not-false _ e)
          | inr e ↦ inr (λ same.
              false≢true (sym e ∙ (eq_iff task.exclusive_group other.exclusive_group).1 same))
        ]

  past_reason :
      {rest : Option Text} (test : Bool) (reason : Text)
      → (if test then some reason else rest) ≡ none
      → (test ≡ false) × (rest ≡ none)
  past_reason true reason h = cc
  past_reason false reason h = (refl, h)

  conflict-IsClear : (task other : Task F) → conflict F task other ≡ none → IsClear task other
  unfolding conflict any_overlap shares_boundary
  conflict-IsClear task other h =
      let (group, h₁) = past_reason (same_group F task other) _ h in
      let (paths, h₂) = past_reason (any_overlap task.paths other.paths) _ h₁ in
      let (boundaries, h₃) =
        past_reason (shares_boundary task.semantic_boundaries other.semantic_boundaries) _ h₂ in
      record {
        groups = same_group-apart task other group;
        paths =
            All-map (λ p e. any-false _ other.paths e) task.paths (any-false _ task.paths paths);
        boundaries = any-false _ task.semantic_boundaries boundaries;
      }

  conflicts-none :
      (task : Task F) (others : List (Task F))
      → conflicts F task others ≡ none
      → All (IsClear task) others
  unfolding conflicts
  conflicts-none task [] h = tt
  conflicts-none task (other ∷ rest) h =
      by_conflict (conflict F task other) refl h (λ k. conflicts-none task rest k)
    where
      by_conflict :
          (found : Option Text)
          → conflict F task other ≡ found
          → elim found [ some reason ↦ some reason | none ↦ conflicts F task rest ] ≡ none
          → (conflicts F task rest ≡ none → All (IsClear task) rest)
          → IsClear task other × All (IsClear task) rest
      by_conflict (some reason) e k later = cc
      by_conflict none e k later = (conflict-IsClear task other e, later k)

  -- A candidate that is selected, and a later one: different tasks, with nothing in common.
  abbrev pub Separate : Candidate F → Candidate F → Type 0
  Separate earlier later = (later.task.id ≢ earlier.task.id) × IsClear later.task earlier.task

  -- The selected candidates are separate, and their tasks are known.
  pub record IsSeparate (s : Selection F) : Type 0 where
    pub apart : Pairwise Separate s.selected
    pub known : All (λ k. member k.task.id s.selected_task_ids ≡ true) s.selected

  member-later :
      (id new : Text) (ids : List Text) → member id ids ≡ true → member id (new ∷ ids) ≡ true
  unfolding member
  member-later id new ids h = rw h (ground arith)

  member-here : (id : Text) (ids : List Text) → member id (id ∷ ids) ≡ true
  unfolding member
  member-here id ids = rw (eq_refl id) refl

  admit-Separate :
      (c : Candidate F) (ids : List Text) (xs : List (Candidate F))
      → member c.task.id ids ≡ false
      → All (λ k. member k.task.id ids ≡ true) xs
      → All (IsClear c.task) (map (λ k. k.task) xs)
      → All (λ k. Separate k c) xs
  admit-Separate c ids [] new known clear = tt
  admit-Separate c ids (k ∷ xs) new known clear =
      let differs : c.task.id ≢ k.task.id =
        λ e. false≢true (sym new ∙ ap (λ i. member i ids) e ∙ known.0) in
      ((differs, clear.0), admit-Separate c ids xs new known.1 clear.1)

  pub select-IsSeparate :
      (cs : List (Candidate F)) (s : Selection F)
      → All (λ c. Unit {0}) cs
      → IsSeparate s
      → IsSeparate (select F cs s)
  select-IsSeparate =
      select-keeps F (λ c. Unit) IsSeparate
        (λ s t r p. record {
          apart = rw r.selected p.apart;
          known = rw (r.selected, r.selected_task_ids) p.known;
        })
        (λ c s t u r p. subst IsSeparate (sym r.result) (record {
          apart = Pairwise-snoc Separate s.selected c p.apart (
              admit-Separate c s.selected_task_ids s.selected r.new p.known
                (conflicts-none c.task (map (λ k. k.task) s.selected) r.clear));
          known =
              All-append _ s.selected (c ∷ [])
                (All-map (λ k m. member-later k.task.id c.task.id s.selected_task_ids m) s.selected
                  p.known)
                (member-here c.task.id s.selected_task_ids, tt);
        }))
