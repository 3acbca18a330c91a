-- ===== src/Allowance/Select.antt =====
-- `plan`, the loop over the sorted candidates: it selects.
use idol_id_agents.Prelude.{
  ℕ, suc, ◌-◌, Text, Bool, false, ◌&&◌, ◌||◌, List, [], ◌∷◌, ◌++◌, map, ◌==◌, ltb, leb, max, Option,
  none, some, or_else, if◌then◌else◌,
}
use idol_id_agents.Model.Atoms.{member}
use idol_id_agents.Scheduler.Floats.{Floats}
use idol_id_agents.Allowance.Windows.{Window, ProviderState}
use idol_id_agents.Allowance.Eligible.{Candidate}
use idol_id_agents.Allowance.Conflicts.{conflicts}
use idol_id_agents.Allowance.Pool.{Refused, conflicting}

module _ (F : Floats) where
  -- The variables of the second loop. A provider is named by its id; `remaining` is each provider's
  -- `remaining_by_window`, and `assigned` its list of that name.
  pub record Selection : Type 0 where
    pub selected : List (Candidate F)
    pub selected_task_ids : List Text
    pub parallel : Text → ℕ
    pub remaining : Text → Text → ℕ
    pub assigned : Text → List Text
    pub markers : List (Text × Text)
    pub rejected : List Refused

  unfoldable pub has_marker : Text → Text → List (Text × Text) → Bool
  unfolding ◌==◌
  has_marker id reason [] = false
  has_marker id reason ((i, r) ∷ rest) = (i == id) && (r == reason) || has_marker id reason rest

  abbrev pub max_parallel : ProviderState F → ℕ
  max_parallel p = max 1 (or_else p.raw.max_parallel 1)

  unfoldable pub count_one : Text → (Text → ℕ) → Text → ℕ
  unfolding ◌==◌
  count_one id counts other = if id == other then suc (counts other) else counts other

  unfoldable pub spend : Text → Text → ℕ → (Text → Text → ℕ) → Text → Text → ℕ
  unfolding ◌==◌
  spend id name tokens remaining p w =
      if (id == p) && (name == w) then remaining p w - tokens else remaining p w

  unfoldable pub give : Text → Text → (Text → List Text) → Text → List Text
  unfolding ◌==◌
  give id task_id assigned p = if id == p then assigned p ++ task_id ∷ [] else assigned p

  -- A conflict is reported once for each task and reason.
  unfoldable pub report_conflict : Text → Text → Selection → Selection
  unfolding has_marker
  report_conflict id reason s = if has_marker id reason s.markers then s else record s {
    markers = (id, reason) ∷ s.markers;
    rejected = s.rejected ++ record { task_id = id; reason = conflicting reason } ∷ [];
  }

  -- The statements behind the windows' test.
  abbrev pub admit : Candidate F → (Text → Text → ℕ) → Selection → Selection
  admit c remaining s = record s {
    selected = s.selected ++ c ∷ [];
    selected_task_ids = c.task.id ∷ s.selected_task_ids;
    parallel = count_one c.provider.id s.parallel;
    remaining = remaining;
    assigned = give c.provider.id c.task.id s.assigned;
  }

  -- `if candidate.window`.
  unfoldable pub draw : Candidate F → Option (Window F) → Selection → Selection
  unfolding spend count_one give
  draw c none s = admit c s.remaining s
  draw c (some w) s =
      if ltb (s.remaining c.provider.id w.name) c.tokens
      then s
      else admit c (spend c.provider.id w.name c.tokens s.remaining) s

  unfoldable pub settle : Candidate F → Option Text → Selection → Selection
  unfolding report_conflict draw
  settle c (some reason) s = report_conflict c.task.id reason s
  settle c none s = draw c c.window s

  -- The body of the second loop.
  unfoldable pub select_one : Candidate F → Selection → Selection
  unfolding settle conflicts member
  select_one c s =
      if member c.task.id s.selected_task_ids
      then s
      else if leb (max_parallel c.provider) (s.parallel c.provider.id)
      then s
      else settle c (conflicts F c.task (map (λ k. k.task) s.selected)) s

  unfoldable pub select : List (Candidate F) → Selection → Selection
  unfolding select_one
  select [] s = s
  select (c ∷ rest) s = select rest (select_one c s)
