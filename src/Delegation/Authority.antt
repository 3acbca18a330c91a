-- ===== src/Delegation/Authority.antt =====
-- The authority files of an assignment are a set.
use idol_id_agents.Prelude.{Text, Bool, ◌≡◌, ap, List}
use idol_id_agents.Model.{WorkOrder}
use idol_id_agents.Model.Atoms.{member}
use idol_id_agents.Journal.{Row}
use idol_id_agents.Delegation.{Outside, declaration}
use idol_id_agents.Delegation.TextSets.{sorted_set_unique}
use idol_id_agents.Delegation.Subjects.{dependency_of, dependency_subject}

module _ (w : Outside) where
  -- Work orders whose authority files are the same as a set, in any order and with any repetition,
  -- depend on the same subject, or are refused alike.
  pub dependency_subject-authority :
      (o : WorkOrder) (files : List Text) (rows : List Row) (observed : Bool)
      → ((t : Text) → member t files ≡ member t o.authority_files)
      → dependency_subject w (record o { authority_files = files }) rows observed
        ≡ dependency_subject w o rows observed
  unfolding dependency_subject declaration
  dependency_subject-authority o files rows observed same =
      ap (dependency_of w o rows observed) (sorted_set_unique files o.authority_files same)
