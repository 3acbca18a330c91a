-- ===== src/Tests/Delegations.antt =====
-- A parent that is accepted by its lead and delegates a child, under a hash that counts characters.
use idol_id_agents.Prelude.{
  ◌*◌, Text, text, true, false, ◌≡◌, ◌≢◌, refl, ap, [], ◌∷◌, ◌++◌, length, ◌==◌, Option, none, some,
  Json, Items, Fields, null, bool, num, str, arr, obj, nil, cons, end, field, ok, err, leb, ◌&&◌,
  arith,
}
use idol_id_agents.Model.{WorkOrder, Coordination, second}
use idol_id_agents.Model.Atoms.{member, is_atom, is_sha, distinct}
use idol_id_agents.Model.Orders.{bounded_text}
use idol_id_agents.Model.Paths.{relative_path_ok, semantic_target_ok}
use idol_id_agents.Model.Decode.Loaded.{order_of}
use idol_id_agents.Model.Encode.{order_mapping}
use idol_id_agents.Journal.{Row, Codec, next_row}
use idol_id_agents.Delegation.{Outside, bytes_differ, latest_assignment_ack}
use idol_id_agents.Delegation.Subjects.{assignment_subject, dependency_subject}
use idol_id_agents.Delegation.Acknowledge.{acked, ack_fact, acknowledge}
use idol_id_agents.Delegation.Queue.{missing, regular, queue_path, queue_content}
use idol_id_agents.Delegation.Delegate.{
  Desk, check_parent, accepted_row, prior_row, delegate, delegation_row, recover,
}
use idol_id_agents.Delegation.Resumed.{new_delegation, interrupted, recover-resumes}
use idol_id_agents.Delegation.Again.{delegate-delegate}
use idol_id_agents.Delegation.Arrived.{delegate-arrives}
use idol_id_agents.Delegation.Stranded.{delegate-strands}
use idol_id_agents.Delegation.Kept.{IsKept, delegate-IsKept}
use idol_id_agents.Delegation.Accepted.{acknowledge-accepts}
use idol_id_agents.Delegation.Authority.{dependency_subject-authority}
use idol_id_agents.Tests.Samples.{order, inner_order, sha, route}
use idol_id_agents.Tests.Readbacks.{readers}

abbrev mutual
  flat : Json → Text
  flat null = text "null"
  flat (bool b) = text "b"
  flat (num n) = text "n"
  flat (str t) = t
  flat (arr items) = flat_items items
  flat (obj fs) = flat_fields fs

  flat_items : Items → Text
  flat_items nil = []
  flat_items (cons v rest) = flat v ++ flat_items rest

  flat_fields : Fields → Text
  flat_fields end = []
  flat_fields (field k v rest) = k ++ flat v ++ flat_fields rest

abbrev outside : Outside
outside = record {
  sha256 = λ t. length t ∷ [];
  canonical = flat;
  uid = 501;
  read_file = λ repository path. some path;
  show_file = λ repository base path. some path;
  head_of = λ repository. some sha;
  subject_hash = λ r. r.id;
  queue_dir = text "/orders";
  readers = readers;
}

abbrev lead : Text
lead = text "lead"

abbrev declared : Coordination
declared = record {
  mode = text "explore";
  recipient = lead;
  parent_task = [];
  parent_subject = [];
  hypothesis = [];
  attempts = 2;
  allowance = 900;
  recovery = [];
  question = [];
  artifact = [];
  recipe = [];
  prerequisites = [];
}

abbrev parent : WorkOrder
parent = record order { coordination = some declared; authority_files = text "b" ∷ text "a" ∷ [] }

abbrev child_declared : Coordination
child_declared = record declared {
  parent_task = text "t1";
  parent_subject = assignment_subject outside parent;
}

abbrev child : WorkOrder
child = record inner_order { coordination = some child_declared }

-- Rows are hashed to their numbers.
abbrev codec : Codec
codec = record {
  digest = λ n at kind previous fact. n ∷ [];
  decode = λ line. none;
  encode = λ r. r.kind;
}

abbrev dependency : Text
dependency = elim (dependency_subject outside parent [] false) [ ok t ↦ t | err e ↦ [] ]

abbrev ack_row : Row
ack_row =
    next_row codec [] acked (ack_fact outside parent route lead 3600 7 declared dependency)
      (7 * second)

abbrev desk : Desk
desk = record { rows = ack_row ∷ []; queue = λ name. missing }

abbrev delegation : Row
delegation = new_delegation codec outside parent child lead child_declared ack_row 9 desk

abbrev stopped : Desk
stopped = interrupted codec outside parent child lead child_declared ack_row 9 desk

parent_accepted : acknowledge codec outside parent route lead 3600 7 [] ≡ ok (ack_row, ack_row ∷ [])
unfolding acknowledge
parent_accepted = refl

acknowledge-accepts_example :
    (accepted_row outside parent lead (ack_row ∷ []) ≡ some ack_row)
    × (latest_assignment_ack (ack_row ∷ []) (text "t1") ≡ some ack_row)
    × ((leb 30 3600 && leb 3600 86400) ≡ true)
acknowledge-accepts_example =
    acknowledge-accepts codec outside parent route lead 3600 7 [] parent_accepted

files_agree :
    (t : Text)
    → member t (text "a" ∷ text "b" ∷ text "a" ∷ []) ≡ member t (text "b" ∷ text "a" ∷ [])
unfolding member
files_agree t = ground arith

dependency_subject-authority_example :
    dependency_subject outside
      (record parent { authority_files = text "a" ∷ text "b" ∷ text "a" ∷ [] })
      []
      false
    ≡ dependency_subject outside parent [] false
dependency_subject-authority_example =
    dependency_subject-authority outside parent (text "a" ∷ text "b" ∷ text "a" ∷ []) [] false
      files_agree

parent_checked : check_parent outside parent child lead ≡ ok child_declared
unfolding check_parent
parent_checked = refl

parent_found : accepted_row outside parent lead desk.rows ≡ some ack_row
unfolding accepted_row ack_fact
parent_found = refl

child_new : prior_row outside child ack_row.hash desk.rows ≡ none
unfolding prior_row
child_new = refl

child_fresh : delegation_row delegation.hash desk.rows ≡ none
unfolding delegation_row
child_fresh = refl

child_loads : order_of readers (order_mapping child) ≡ ok child
unfolding order_of order_mapping is_atom is_sha relative_path_ok semantic_target_ok bounded_text
    assignment_subject distinct
child_loads = refl

recover-resumes_example :
    recover codec outside delegation.hash 9 missing stopped
    ≡ delegate codec outside parent child lead 9 missing desk
recover-resumes_example =
    recover-resumes codec outside parent child lead 9 missing desk parent_checked parent_found
      child_new child_fresh

no_text : ◌≢◌ {A = Option Text} none (some [])
no_text h = cc

delegate-arrives_example :
    ((delegate codec outside parent child lead 9 missing desk).0 ≡ ok delegation)
    × ((delegate codec outside parent child lead 9 missing desk).1.queue (queue_path outside child)
        ≡ regular (queue_content outside child))
    × (order_of readers (order_mapping child) ≡ ok child)
delegate-arrives_example =
    delegate-arrives codec outside parent child lead 9 desk (order_mapping child) (λ s. refl)
      child_loads no_text no_text parent_checked parent_found child_new refl

abbrev done : Desk
done = (delegate codec outside parent child lead 9 missing desk).1

child_delegated : delegate codec outside parent child lead 9 missing desk ≡ (ok delegation, done)
child_delegated =
    ap (λ r. (r, done))
      (delegate-arrives codec outside parent child lead 9 desk (order_mapping child) (λ s. refl)
        child_loads no_text no_text parent_checked parent_found child_new refl).0

delegate-delegate_example :
    delegate codec outside parent child lead 12 missing done ≡ (ok delegation, done)
delegate-delegate_example =
    delegate-delegate codec outside parent child lead 9 missing desk 12 missing child_delegated

delegate-IsKept_example :
    IsKept desk (delegate codec outside parent child lead 9 missing desk).1
    × IsKept desk (recover codec outside delegation.hash 9 missing desk).1
delegate-IsKept_example =
    delegate-IsKept codec outside parent child lead delegation.hash 9 missing desk

-- A child whose reviewer family was given as a blank.
abbrev blank_child : WorkOrder
blank_child = record child { reviewer_family = some [] }

blank_checked : check_parent outside parent blank_child lead ≡ ok child_declared
unfolding check_parent
blank_checked = refl

blank_new : prior_row outside blank_child ack_row.hash desk.rows ≡ none
unfolding prior_row
blank_new = refl

blank_loads : order_of readers (order_mapping blank_child) ≡ ok child
unfolding order_of order_mapping is_atom is_sha relative_path_ok semantic_target_ok bounded_text
    assignment_subject distinct
blank_loads = refl

blank_differs :
    (outside.sha256 (queue_content outside blank_child)
      == outside.sha256 (queue_content outside child))
    ≡ false
unfolding queue_content ◌==◌ assignment_subject
blank_differs = refl

delegate-strands_example :
    let stuck = interrupted codec outside parent blank_child lead child_declared ack_row 9 desk in
    (delegate codec outside parent blank_child lead 9 missing desk ≡ (err bytes_differ, stuck))
    × (delegate codec outside parent blank_child lead 12 missing stuck ≡ (err bytes_differ, stuck))
    × (recover codec outside (2 ∷ []) 12 missing stuck ≡ (err bytes_differ, stuck))
delegate-strands_example =
    delegate-strands codec outside parent blank_child child lead 9 12 missing missing desk
      blank_checked parent_found blank_new child_fresh blank_loads blank_differs
