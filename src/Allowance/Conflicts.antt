-- ===== src/Allowance/Conflicts.antt =====
-- When a task conflicts with the tasks that are selected.
use idol_id_agents.Prelude.{
  Text, text, Bool, false, ◌&&◌, ◌||◌, not, List, [], ◌∷◌, ◌++◌, map, any, is_empty, ◌==◌, nat_eq,
  Option, none, some, if◌then◌else◌,
}
use idol_id_agents.Strings.{slash, strip, rstrip, starts_with}
use idol_id_agents.Model.Atoms.{member}
use idol_id_agents.Scheduler.Floats.{Floats}
use idol_id_agents.Allowance.{Task}

-- `value.replace("\\", "/")`.
abbrev pub slashed : Text → Text
slashed path = map (λ c. if nat_eq c 92 then slash else c) path

-- `while path.startswith("./"): path = path[2:]`.
unfoldable pub drop_dots : Text → Text
drop_dots [] = []
drop_dots (c ∷ []) = c ∷ []
drop_dots (c ∷ (d ∷ rest)) =
    let dropped = drop_dots rest in
    if nat_eq c b'.' && nat_eq d slash then dropped else c ∷ (d ∷ rest)

unfoldable pub normalized_path : Text → Text
unfolding strip drop_dots rstrip
normalized_path value = rstrip (λ c. nat_eq c slash) (drop_dots (slashed (strip value)))

unfoldable pub paths_overlap : Text → Text → Bool
unfolding ◌==◌ starts_with
paths_overlap left right =
    if is_empty left || is_empty right
    then false
    else (left == right)
      || starts_with (right ++ slash ∷ []) left
      || starts_with (left ++ slash ∷ []) right

-- `any(paths_overlap(left, right) for left in … for right in …)`, on paths as they are written.
unfoldable pub any_overlap : List Text → List Text → Bool
unfolding paths_overlap normalized_path
any_overlap lefts rights =
    any (λ left. any (λ right. paths_overlap (normalized_path left) (normalized_path right)) rights)
      lefts

unfoldable pub shares_boundary : List Text → List Text → Bool
unfolding member
shares_boundary these those = any (λ boundary. member boundary those) these

module _ (F : Floats) where
  abbrev pub same_group : Task F → Task F → Bool
  same_group task other =
      not (is_empty task.exclusive_group) && (task.exclusive_group == other.exclusive_group)

  -- The body of the loop: what is wrong with `task` beside `other`.
  unfoldable pub conflict : Task F → Task F → Option Text
  unfolding ◌==◌ any_overlap shares_boundary
  conflict task other =
      if same_group task other
      then some (text "exclusive-group:" ++ task.exclusive_group)
      else if any_overlap task.paths other.paths
      then some (text "path-conflict:" ++ other.id)
      else if shares_boundary task.semantic_boundaries other.semantic_boundaries
      then some (text "semantic-boundary-conflict:" ++ other.id)
      else none

  -- `conflicts`, against the selected tasks.
  unfoldable pub conflicts : Task F → List (Task F) → Option Text
  unfolding conflict
  conflicts task [] = none
  conflicts task (other ∷ rest) =
      let later = conflicts task rest in
      elim (conflict task other) [ some reason ↦ some reason | none ↦ later ]
