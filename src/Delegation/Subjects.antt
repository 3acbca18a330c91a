-- ===== src/Delegation/Subjects.antt =====
-- The hashes that name an assignment and what it depends on.
use idol_id_agents.Prelude.{
  Text, text, Bool, false, true, List, [], ◌∷◌, ◌==◌, text_lt, Option, none, some, Json, Items, str,
  num, arr, obj, nil, cons, Result, ok, err, ◌>>=◌, if◌then◌else◌,
}
use idol_id_agents.Model.{WorkOrder, Coordination, Route}
use idol_id_agents.Model.Encode.{fields_of, text_items, order_mapping}
use idol_id_agents.Scheduler.Sort.{sort}
use idol_id_agents.Journal.{Row}
use idol_id_agents.Delegation.TextSets.{sorted_set}
use idol_id_agents.Delegation.{
  Outside, CoordinationRefusal, unknown_prerequisite, authority_absent, head_unreadable,
  declaration, last_match,
}

-- `digest`.
abbrev pub digest : Outside → Json → Text
digest w value = w.sha256 (w.canonical value)

-- `assignment_subject`.
unfoldable pub assignment_subject : Outside → WorkOrder → Text
unfolding order_mapping
assignment_subject w o = digest w (
    obj (
      fields_of (
        (text "schema", str (text "idol.fleet.assignment.v1"))
        ∷ (text "order", obj (order_mapping o))
        ∷ [])))

abbrev pub without_recipe : Option Coordination → Option Coordination
without_recipe none = none
without_recipe (some d) = some (record d { recipe = [] })

-- `premise_subject`.
unfoldable pub premise_subject : Outside → WorkOrder → Text
unfolding assignment_subject
premise_subject w o =
    assignment_subject w (record o { coordination = without_recipe o.coordination })

-- `scope_subject`.
unfoldable pub scope_subject : Outside → WorkOrder → Text
unfolding text_items
scope_subject w o = digest w (
    obj (
      fields_of (
        (text "paths", arr (text_items o.path_claims))
        ∷ (text "semantics", arr (text_items o.semantic_claims))
        ∷ (text "role", str o.role)
        ∷ [])))

-- `route_subject`.
unfoldable pub route_subject : Outside → Route → Text
route_subject w route = digest w (
    obj (
      fields_of (
        (text "route_subject", str (w.subject_hash route))
        ∷ (text "timeout_seconds", num route.timeout_seconds)
        ∷ [])))

-- `by_hash.get(reference)`, with the test of its kind.
unfoldable pub prerequisite : List Row → Text → Result CoordinationRefusal Json
unfolding last_match ◌==◌
prerequisite rows reference = elim (last_match (λ row. row.hash == reference) rows) [
  | none ↦ err (unknown_prerequisite reference)
  | some row ↦
      if row.kind == text "attempt.admitted"
      then ok (obj (fields_of ((text "hash", str reference) ∷ (text "fact", row.fact) ∷ [])))
      else err (unknown_prerequisite reference)
]

unfoldable pub prerequisites : List Row → List Text → Result CoordinationRefusal Items
unfolding prerequisite
prerequisites rows [] = ok nil
prerequisites rows (reference ∷ rest) = do
  found ← prerequisite rows reference
  later ← prerequisites rows rest
  ok (cons found later)

-- The bytes of an authority file: of the checkout, or of the exact base.
abbrev pub authority_bytes : Outside → WorkOrder → Bool → Text → Option Text
authority_bytes w o observed relative =
    if observed
    then w.read_file o.repository relative
    else w.show_file o.repository o.base_sha relative

unfoldable pub authority :
    Outside → (Text → Option Text) → List Text → Result CoordinationRefusal Items
authority w bytes_of [] = ok nil
authority w bytes_of (relative ∷ rest) = elim (bytes_of relative) [
  | none ↦ err (authority_absent relative)
  | some bytes ↦ do
    later ← authority w bytes_of rest
    ok (
        cons
          (obj
            (fields_of ((text "path", str relative) ∷ (text "sha256", str (w.sha256 bytes)) ∷ [])))
          later)
]

-- `current_sha(order.repository) if observed else order.base_sha`.
unfoldable pub base_of : Outside → Text → Text → Bool → Result CoordinationRefusal Text
base_of w repository base_sha false = ok base_sha
base_of w repository base_sha true = elim (w.head_of repository) [
  | none ↦ err head_unreadable
  | some head ↦ ok head
]

-- The subject, with the authority files in the order in which they are read.
abbrev pub dependency_of :
    Outside → WorkOrder → List Row → Bool → List Text → Result CoordinationRefusal Text
unfolding declaration prerequisites authority base_of sort text_lt
dependency_of w o rows observed names = do
  coordination ← declaration o
  required ← prerequisites rows (sort text_lt coordination.prerequisites)
  files ← authority w (authority_bytes w o observed) names
  base ← base_of w o.repository o.base_sha observed
  ok (
      digest w (
        obj (
          fields_of (
            (text "schema", str (text "idol.fleet.dependency.v1"))
            ∷ (text "base", str base)
            ∷ (text "authority", arr files)
            ∷ (text "prerequisites", arr required)
            ∷ []))))

-- `dependency_subject`.
unfoldable pub dependency_subject :
    Outside → WorkOrder → List Row → Bool → Result CoordinationRefusal Text
unfolding sorted_set declaration prerequisites authority base_of sort text_lt
dependency_subject w o rows observed =
    dependency_of w o rows observed (sorted_set o.authority_files)
