-- ===== src/Allowance/Chosen.antt =====
-- What one round of the second loop of `plan` does, and what that means for all of its rounds.
use mathlib.Core.Path.{subst}
use idol_id_agents.Prelude.{
  ℕ, ◌≤◌, ◌<◌, Text, true, false, ◌≡◌, refl, sym, List, [], ◌∷◌, map, All, All-append, ltb, leb,
  Option, none, some, ◌⊎◌, inl, inr, Bool-cases, Option-cases, arith,
}
use idol_id_agents.Model.Atoms.{member}
use idol_id_agents.Scheduler.Floats.{Floats}
use idol_id_agents.Allowance.Windows.{Window}
use idol_id_agents.Allowance.Eligible.{Candidate}
use idol_id_agents.Allowance.Conflicts.{conflicts}
use idol_id_agents.Allowance.Select.{
  Selection, max_parallel, spend, has_marker, report_conflict, admit, draw, settle, select_one,
  select,
}

module _ (F : Floats) where
  -- A round that selects nothing.
  pub record IsSame (s t : Selection F) : Type 0 where
    pub selected : t.selected ≡ s.selected
    pub selected_task_ids : t.selected_task_ids ≡ s.selected_task_ids
    pub parallel : t.parallel ≡ s.parallel
    pub remaining : t.remaining ≡ s.remaining
    pub assigned : t.assigned ≡ s.assigned

  -- The tokens that are left when a candidate has drawn its own.
  pub data Draws (c : Candidate F) (s : Selection F) : (Text → Text → ℕ) → Type 0 where
    nothing_drawn : c.window ≡ none → Draws c s s.remaining
    drawn :
        (w : Window F)
        → c.window ≡ some w
        → c.tokens ≤ s.remaining c.provider.id w.name
        → Draws c s (spend F c.provider.id w.name c.tokens s.remaining)

  -- A round that selects its candidate.
  pub record IsAdmit (c : Candidate F) (s t : Selection F) : Type 0 where
    pub remaining : Text → Text → ℕ
    pub draws : Draws c s remaining
    pub new : member c.task.id s.selected_task_ids ≡ false
    pub room : s.parallel c.provider.id < max_parallel F c.provider
    pub clear : conflicts F c.task (map (λ k. k.task) s.selected) ≡ none
    pub result : t ≡ admit F c remaining s

  abbrev pub Round : Candidate F → Selection F → Selection F → Type 0
  Round c s t = IsSame s t ⊎ IsAdmit c s t

  IsSame-refl : (s : Selection F) → IsSame s s
  IsSame-refl s = record {
    selected = refl;
    selected_task_ids = refl;
    parallel = refl;
    remaining = refl;
    assigned = refl;
  }

  report_conflict-IsSame :
      (id reason : Text) (s : Selection F) → IsSame s (report_conflict F id reason s)
  unfolding report_conflict
  report_conflict-IsSame id reason s = elim (Bool-cases (has_marker F id reason s.markers)) [
    | inl known ↦ rw known (IsSame-refl s)
    | inr new ↦ rw new (record {
      selected = refl;
      selected_task_ids = refl;
      parallel = refl;
      remaining = refl;
      assigned = refl;
    })
  ]

  -- What becomes of a candidate in its round.
  pub data Outcome (c : Candidate F) (s : Selection F) : Selection F → Type 0 where
    task_known : member c.task.id s.selected_task_ids ≡ true → Outcome c s s
    provider_full : max_parallel F c.provider ≤ s.parallel c.provider.id → Outcome c s s
    in_conflict : (reason : Text) → Outcome c s (report_conflict F c.task.id reason s)
    window_short :
        (w : Window F)
        → c.window ≡ some w
        → s.remaining c.provider.id w.name < c.tokens
        → Outcome c s s
    admitted : (t : Selection F) → IsAdmit c s t → Outcome c s t

  draw-Outcome :
      (c : Candidate F) (window : Option (Window F)) (s : Selection F)
      → c.window ≡ window
      → member c.task.id s.selected_task_ids ≡ false
      → s.parallel c.provider.id < max_parallel F c.provider
      → conflicts F c.task (map (λ k. k.task) s.selected) ≡ none
      → Outcome c s (draw F c window s)
  unfolding draw
  draw-Outcome c none s e new room clear = admitted (admit F c s.remaining s) (record {
    remaining = s.remaining;
    draws = nothing_drawn e;
    new = new;
    room = room;
    clear = clear;
    result = refl;
  })
  draw-Outcome c (some w) s e new room clear =
      let left = spend F c.provider.id w.name c.tokens s.remaining in
      elim (Bool-cases (ltb (s.remaining c.provider.id w.name) c.tokens)) [
        | inl short ↦ rw short (window_short w e (ground arith))
        | inr enough ↦ rw enough (
            admitted (admit F c left s) (record {
              remaining = left;
              draws = drawn w e (ground arith);
              new = new;
              room = room;
              clear = clear;
              result = refl;
            }))
      ]

  pub select_one-Outcome : (c : Candidate F) (s : Selection F) → Outcome c s (select_one F c s)
  unfolding select_one settle
  select_one-Outcome c s = elim (Bool-cases (member c.task.id s.selected_task_ids)) [
    | inl known ↦ rw known (task_known known)
    | inr new ↦ elim (Bool-cases (leb (max_parallel F c.provider) (s.parallel c.provider.id))) [
      | inl full ↦ rw (new, full) (provider_full (ground arith))
      | inr room ↦ elim (Option-cases (conflicts F c.task (map (λ k. k.task) s.selected))) [
        | inl clear ↦
            rw (new, room, clear) (draw-Outcome c c.window s refl new (ground arith) clear)
        | inr (reason, found) ↦ rw (new, room, found) (in_conflict reason)
      ]
    ]
  ]

  Outcome-Round : (c : Candidate F) (s t : Selection F) → Outcome c s t → Round c s t
  Outcome-Round c s t (task_known h) = inl (IsSame-refl s)
  Outcome-Round c s t (provider_full h) = inl (IsSame-refl s)
  Outcome-Round c s t (in_conflict reason) = inl (report_conflict-IsSame c.task.id reason s)
  Outcome-Round c s t (window_short w e h) = inl (IsSame-refl s)
  Outcome-Round c s t (admitted u h) = inr h

  -- What each round keeps holds of the selection in the end.
  module _ (Q : Candidate F → Type 0) (P : Selection F → Type 0)
      (same : (s t : Selection F) → IsSame s t → P s → P t)
      (admitted : (c : Candidate F) (s t : Selection F) → Q c → IsAdmit c s t → P s → P t) where
    pub select-keeps :
        (cs : List (Candidate F)) (s : Selection F) → All Q cs → P s → P (select F cs s)
    unfolding select
    select-keeps [] s q p = p
    select-keeps (c ∷ rest) s q p =
        select-keeps rest (select_one F c s) q.1
          (elim (Outcome-Round c s (select_one F c s) (select_one-Outcome c s)) [
            | inl r ↦ same s (select_one F c s) r p
            | inr r ↦ admitted c s (select_one F c s) q.0 r p
          ])

  -- What holds of every candidate holds of every selected one.
  pub select-All :
      (Q : Candidate F → Type 0) (cs : List (Candidate F)) (s : Selection F)
      → All Q cs
      → All Q s.selected
      → All Q (select F cs s).selected
  select-All Q =
      select-keeps Q (λ s. All Q s.selected) (λ s t r p. subst (All Q) (sym r.selected) p)
        (λ c s t q r p.
          subst (λ (u : Selection F). All Q u.selected) (sym r.result)
            (All-append Q s.selected (c ∷ []) p (q, tt)))
