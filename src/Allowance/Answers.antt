-- ===== src/Allowance/Answers.antt =====
-- The second loop of `plan` deals with every candidate, and the plan answers every task.
use mathlib.Core.Path.{subst}
use native.Mathlib.Nat.{le_refl, le_trans}
use idol_id_agents.Prelude.{
  ℕ, ◌≤◌, ◌<◌, Text, true, ◌≡◌, refl, sym, ◌&&◌, List, [], ◌∷◌, All, All-map, Any, Any-append_left,
  Any-append_right, ◌==◌, eq_iff, eq_refl, some, ◌⊎◌, inl, inr, Bool-cases, arith, or_true,
  and_true, false≢true,
}
use idol_id_agents.Model.Atoms.{member}
use idol_id_agents.Scheduler.Floats.{Floats}
use idol_id_agents.Allowance.Windows.{Window}
use idol_id_agents.Allowance.Eligible.{Candidate}
use idol_id_agents.Allowance.Select.{
  Selection, max_parallel, count_one, spend, has_marker, report_conflict, select_one, select,
}
use idol_id_agents.Allowance.Pool.{Refused}
use idol_id_agents.Allowance.Chosen.{
  Draws, nothing_drawn, drawn, Outcome, task_known, provider_full, in_conflict, window_short,
  admitted, select_one-Outcome, select-keeps,
}

module _ (F : Floats) where
  -- A refusal of the task `id`.
  abbrev pub RefusedIn : List Refused → Text → Type 0
  RefusedIn rejected id = Any (λ r. r.task_id ≡ id) rejected

  -- Every marker stands for a refusal.
  abbrev pub Marked : Selection F → Type 0
  Marked s = All (λ m. RefusedIn s.rejected m.0) s.markers

  -- A later state knows more tasks, has used more and has less left.
  pub record Grows (s t : Selection F) : Type 0 where
    pub known :
        (id : Text) → member id s.selected_task_ids ≡ true → member id t.selected_task_ids ≡ true
    pub parallel : (id : Text) → s.parallel id ≤ t.parallel id
    pub remaining : (id name : Text) → t.remaining id name ≤ s.remaining id name
    pub refused : (id : Text) → RefusedIn s.rejected id → RefusedIn t.rejected id

  Grows-refl : (s : Selection F) → Grows s s
  Grows-refl s = record {
    known = λ id h. h;
    parallel = λ id. le_refl _;
    remaining = λ id name. le_refl _;
    refused = λ id h. h;
  }

  Grows-trans : {s t u : Selection F} → Grows s t → Grows t u → Grows s u
  Grows-trans a b = record {
    known = λ id h. b.known id (a.known id h);
    parallel = λ id. le_trans (a.parallel id) (b.parallel id);
    remaining = λ id name. le_trans (b.remaining id name) (a.remaining id name);
    refused = λ id h. b.refused id (a.refused id h);
  }

  report_conflict-Grows :
      (id reason : Text) (s : Selection F) → Grows s (report_conflict F id reason s)
  unfolding report_conflict
  report_conflict-Grows id reason s = elim (Bool-cases (has_marker F id reason s.markers)) [
    | inl known ↦ rw known (Grows-refl s)
    | inr new ↦ rw new (record {
      known = λ i h. h;
      parallel = λ i. le_refl _;
      remaining = λ i name. le_refl _;
      refused = λ i h. Any-append_left _ s.rejected _ h;
    })
  ]

  spend-le :
      (p window id name : Text) (tokens : ℕ) (remaining : Text → Text → ℕ)
      → spend F p window tokens remaining id name ≤ remaining id name
  unfolding spend
  spend-le p window id name tokens remaining = ground arith

  Draws-le :
      (c : Candidate F) (s : Selection F) (r : Text → Text → ℕ) (id name : Text)
      → Draws F c s r
      → r id name ≤ s.remaining id name
  Draws-le c s r id name (nothing_drawn e) = le_refl _
  Draws-le c s r id name (drawn w e enough) =
      spend-le c.provider.id w.name id name c.tokens s.remaining

  count_one-le : (p id : Text) (counts : Text → ℕ) → counts id ≤ count_one F p counts id
  unfolding count_one
  count_one-le p id counts = ground arith

  member-later :
      (id new : Text) (ids : List Text) → member id ids ≡ true → member id (new ∷ ids) ≡ true
  unfolding member
  member-later id new ids h = rw h (ground arith)

  Outcome-Grows : (c : Candidate F) (s t : Selection F) → Outcome F c s t → Grows s t
  Outcome-Grows c s t (task_known h) = Grows-refl s
  Outcome-Grows c s t (provider_full h) = Grows-refl s
  Outcome-Grows c s t (in_conflict reason) = report_conflict-Grows c.task.id reason s
  Outcome-Grows c s t (window_short w e h) = Grows-refl s
  Outcome-Grows c s t (admitted u h) = subst (Grows s) (sym h.result) (record {
    known = λ id k. member-later id c.task.id s.selected_task_ids k;
    parallel = λ id. count_one-le c.provider.id id s.parallel;
    remaining = λ id name. Draws-le c s h.remaining id name h.draws;
    refused = λ id k. k;
  })

  report_conflict-Marked :
      (id reason : Text) (s : Selection F) → Marked s → Marked (report_conflict F id reason s)
  unfolding report_conflict
  report_conflict-Marked id reason s h = elim (Bool-cases (has_marker F id reason s.markers)) [
    | inl known ↦ rw known h
    | inr new ↦ rw new (
      Any-append_right _ s.rejected _ (inl refl),
      All-map (λ m r. Any-append_left _ s.rejected _ r) s.markers h,
    )
  ]

  Outcome-Marked : (c : Candidate F) (s t : Selection F) → Outcome F c s t → Marked s → Marked t
  Outcome-Marked c s t (task_known e) h = h
  Outcome-Marked c s t (provider_full e) h = h
  Outcome-Marked c s t (in_conflict reason) h = report_conflict-Marked c.task.id reason s h
  Outcome-Marked c s t (window_short w e k) h = h
  Outcome-Marked c s t (admitted u k) h = subst Marked (sym k.result) h

  -- A candidate that needs no further look: its task is selected or refused, its provider is full,
  -- or its window has too few tokens left.
  abbrev pub Settled : Selection F → Candidate F → Type 0
  Settled s c =
      (member c.task.id s.selected_task_ids ≡ true)
      ⊎ (RefusedIn s.rejected c.task.id
          ⊎ ((max_parallel F c.provider ≤ s.parallel c.provider.id)
              ⊎ ((w : Window F) × (c.window ≡ some w)
                  × (s.remaining c.provider.id w.name < c.tokens))))

  Settled-Grows : (s t : Selection F) (c : Candidate F) → Grows s t → Settled s c → Settled t c
  Settled-Grows s t c g (inl h) = inl (g.known c.task.id h)
  Settled-Grows s t c g (inr (inl h)) = inr (inl (g.refused c.task.id h))
  Settled-Grows s t c g (inr (inr (inl h))) =
      inr (inr (inl (le_trans h (g.parallel c.provider.id))))
  Settled-Grows s t c g (inr (inr (inr (w, e, h)))) =
      inr (inr (inr (w, e, omega (arith, h, g.remaining c.provider.id w.name))))

  has_marker-RefusedIn :
      (id reason : Text) (rejected : List Refused) (markers : List (Text × Text))
      → has_marker F id reason markers ≡ true
      → All (λ m. RefusedIn rejected m.0) markers
      → RefusedIn rejected id
  unfolding has_marker
  has_marker-RefusedIn id reason rejected [] h k = absurd (false≢true h)
  has_marker-RefusedIn id reason rejected ((i, r) ∷ rest) h k =
      elim (or_true ((i == id) && (r == reason)) (has_marker F id reason rest) h) [
        | inl here ↦
            subst (RefusedIn rejected) ((eq_iff i id).0 (and_true (i == id) (r == reason) here).0)
              k.0
        | inr there ↦ has_marker-RefusedIn id reason rejected rest there k.1
      ]

  report_conflict-RefusedIn :
      (id reason : Text) (s : Selection F)
      → Marked s
      → RefusedIn (report_conflict F id reason s).rejected id
  unfolding report_conflict
  report_conflict-RefusedIn id reason s h = elim (Bool-cases (has_marker F id reason s.markers)) [
    | inl known ↦ rw known (has_marker-RefusedIn id reason s.rejected s.markers known h)
    | inr new ↦ rw new (Any-append_right _ s.rejected _ (inl refl))
  ]

  member-here : (id : Text) (ids : List Text) → member id (id ∷ ids) ≡ true
  unfolding member
  member-here id ids = rw (eq_refl id) refl

  Outcome-Settled : (c : Candidate F) (s t : Selection F) → Outcome F c s t → Marked s → Settled t c
  Outcome-Settled c s t (task_known e) h = inl e
  Outcome-Settled c s t (provider_full e) h = inr (inr (inl e))
  Outcome-Settled c s t (in_conflict reason) h =
      inr (inl (report_conflict-RefusedIn c.task.id reason s h))
  Outcome-Settled c s t (window_short w e k) h = inr (inr (inr (w, e, k)))
  Outcome-Settled c s t (admitted u k) h =
      subst (λ (v : Selection F). Settled v c) (sym k.result)
        (inl (member-here c.task.id s.selected_task_ids))

  pub select-Grows : (cs : List (Candidate F)) (s : Selection F) → Grows s (select F cs s)
  unfolding select
  select-Grows [] s = Grows-refl s
  select-Grows (c ∷ rest) s =
      Grows-trans (Outcome-Grows c s (select_one F c s) (select_one-Outcome F c s))
        (select-Grows rest (select_one F c s))

  pub select-Settled :
      (cs : List (Candidate F)) (s : Selection F) → Marked s → All (Settled (select F cs s)) cs
  unfolding select
  select-Settled [] s h = tt
  select-Settled (c ∷ rest) s h =
      let next = select_one F c s in
      let outcome = select_one-Outcome F c s in
      (
        Settled-Grows next (select F rest next) c (select-Grows rest next)
            (Outcome-Settled c s next outcome h),
        select-Settled rest next (Outcome-Marked c s next outcome h),
      )

  -- The known tasks are those of the selected candidates.
  abbrev pub Known : Selection F → Type 0
  Known s = All (λ id. Any (λ k. k.task.id ≡ id) s.selected) s.selected_task_ids

  pub select-Known :
      (cs : List (Candidate F)) (s : Selection F)
      → All (λ c. Unit {0}) cs
      → Known s
      → Known (select F cs s)
  select-Known =
      select-keeps F (λ c. Unit) Known (λ s t r p. rw (r.selected_task_ids, r.selected) p)
        (λ c s t u r p. subst Known (sym r.result) (
          Any-append_right _ s.selected _ (inl refl),
          All-map (λ id k. Any-append_left _ s.selected _ k) s.selected_task_ids p,
        ))
